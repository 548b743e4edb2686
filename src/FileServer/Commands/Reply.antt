-- ===== src/FileServer/Commands/Reply.antt =====
-- What the server and the client take for a whole reply.
use cse344system_programming.Prelude.{◌≡◌, refl, Bool, true, false, List, [], ◌∷◌}
use cse344system_programming.FileServer.Commands.{RespStatus, resp_cont, resp_approve, Response}
use cse344system_programming.FileServer.Commands.Transfer.{IsStream}

-- A status behind which nothing is to come.
abbrev pub is_last : RespStatus → Bool
is_last resp_cont = false
is_last resp_approve = false
is_last _ = true

-- Responses that say that more follow, and one behind which nothing is to come.
abbrev pub IsReply : List Response → Type 0
IsReply [] = ⊥
IsReply (r ∷ []) = is_last r.stat ≡ true
IsReply (r ∷ s ∷ rs) = (r.stat ≡ resp_cont) × IsReply (s ∷ rs)

pub IsStream-IsReply : (rs : List Response) → IsStream rs → IsReply rs
IsStream-IsReply [] h = h
IsStream-IsReply (r ∷ []) h = rw h refl
IsStream-IsReply (r ∷ s ∷ rs) h = (h.0, IsStream-IsReply (s ∷ rs) h.1)

-- What a question is followed by: a reply to a yes, nothing to a no.
abbrev pub Follows : (answer : Bool) → List Response → Type 0
Follows true rs = IsReply rs
Follows false rs = rs ≡ []

-- The responses to a request: a reply, or a question and what follows the answer.
pub data Answers (answer : Bool) : List Response → Type 0 where
  replies : {rs : List Response} → IsReply rs → Answers answer rs
  questions :
      (q : Response) {rs : List Response}
      → q.stat ≡ resp_approve
      → Follows answer rs
      → Answers answer (q ∷ rs)
