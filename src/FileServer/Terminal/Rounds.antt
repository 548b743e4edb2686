-- ===== src/FileServer/Terminal/Rounds.antt =====
-- What the client of MidtermProject/client.c makes of the responses to a request.
use cse344system_programming.Prelude.{
  ℕ, newline, ◌+◌, ◌<◌, ◌≡◌, ◌≢◌, ◌==◌, refl, ap, sym, ◌∙◌, if◌then◌else◌, Bool, true, false,
  Option, none, some, List, [], ◌∷◌, ◌++◌, length, length-append, append-nil, append_assoc, All,
  All-split, c_string, arith,
}
use cse344system_programming.FileServer.Commands.{
  RespStatus, resp_ok, resp_error, resp_cont, resp_approve, resp_connect, resp_disconnect, Response,
}
use cse344system_programming.FileServer.Commands.Transfer.{IsStream, joined, bodies}
use cse344system_programming.FileServer.Commands.Reply.{
  is_last, IsReply, Follows, Answers, replies, questions,
}
use cse344system_programming.FileServer.Terminal.{
  shown, Received, received, receive, asks, approval, converse,
}

-- A loop over the responses that reads all that there are, and waits for no more.
pub record IsSettled (a : Received) : Type 0 where
  pub rest : a.rest ≡ []
  pub found_empty : a.found_empty ≡ false

received-IsLast :
    (text : List ℕ) (later : Received) (stat : RespStatus)
    → is_last stat ≡ true
    → IsSettled (received text [] later stat) × (asks (received text [] later stat).last ≡ false)
unfolding received
received-IsLast text later resp_ok h = (record { rest = refl; found_empty = refl }, refl)
received-IsLast text later resp_error h = (record { rest = refl; found_empty = refl }, refl)
received-IsLast text later resp_cont h = ground arith
received-IsLast text later resp_approve h = ground arith
received-IsLast text later resp_connect h = (record { rest = refl; found_empty = refl }, refl)
received-IsLast text later resp_disconnect h = (record { rest = refl; found_empty = refl }, refl)

receive-IsReply :
    (memory : ℕ → ℕ) (k : ℕ) (last : Option RespStatus) (rs : List Response)
    → IsReply rs
    → IsSettled (receive memory k last rs) × (asks (receive memory k last rs).last ≡ false)
unfolding receive received
receive-IsReply memory k last [] h = absurd h
receive-IsReply memory k last (r ∷ []) h =
    received-IsLast (shown (memory k) r.body) (receive memory (k + 1) (some r.stat) []) r.stat h
receive-IsReply memory k last (r ∷ s ∷ rs) h =
    let (settled, no_question) = receive-IsReply memory (k + 1) (some resp_cont) (s ∷ rs) h.1 in
    rw h.0 (record { rest = settled.rest; found_empty = settled.found_empty }, no_question)

IsSettled-followed :
    (memory : ℕ → ℕ) (last : Option RespStatus) (answer : Bool) (first : Received)
    (rs : List Response)
    → Follows answer rs
    → first.rest ≡ rs
    → first.found_empty ≡ false
    → (let second = receive memory 0 last rs in
        IsSettled
          (if answer then record second { printed = first.printed ++ second.printed } else first))
IsSettled-followed memory last true first rs h e none_lost =
    let settled = (receive-IsReply memory 0 last rs h).0 in
    record { rest = settled.rest; found_empty = settled.found_empty }
IsSettled-followed memory last false first rs h e none_lost = record {
  rest = e ∙ h;
  found_empty = none_lost;
}

-- The responses to a request are all read, and the client waits for no more of them, where the question is
-- answered as the server takes it.
pub converse-IsSettled :
    (memory : ℕ → ℕ → ℕ) (answers : List (List ℕ)) (rs : List Response)
    → Answers (approval answers) rs
    → IsSettled (converse memory answers rs)
unfolding converse receive received
converse-IsSettled memory answers rs (replies h) =
    let (settled, no_question) = receive-IsReply (memory 0) 0 none rs h in rw no_question settled
converse-IsSettled memory answers _ (questions q {rs} e h) = rw e (
    IsSettled-followed (memory 1) (some resp_approve) (approval answers)
      (received (shown (memory 0 0) q.body) rs (receive (memory 0) 1 (some resp_approve) rs)
        resp_approve)
      rs h refl refl)

-- The texts of the responses, each behind a newline.
unfoldable pub shown_all : (memory : ℕ → ℕ) (k : ℕ) → List Response → List ℕ
shown_all memory k [] = []
shown_all memory k (r ∷ rs) = newline ∷ shown (memory k) r.body ++ shown_all memory (k + 1) rs

-- What is left of a loop that read a text, with these responses behind it.
unfoldable pub read_up : (text : List ℕ) (rest : List Response) → Received
read_up text rest = record {
  printed = text;
  rest = rest;
  last = some resp_ok;
  connected = true;
  found_empty = false;
}

-- A stream is read up to its last response; what is sent behind it is left.
receive-IsStream :
    (memory : ℕ → ℕ) (k : ℕ) (last : Option RespStatus) (rs extra : List Response)
    → IsStream rs
    → receive memory k last (rs ++ extra) ≡ read_up (shown_all memory k rs) extra
unfolding receive received shown_all read_up
receive-IsStream memory k last [] extra h = absurd h
receive-IsStream memory k last (r ∷ []) extra h =
    rw h (ap (λ t. read_up (newline ∷ t) extra) (sym (append-nil (shown (memory k) r.body))))
receive-IsStream memory k last (r ∷ s ∷ rs) extra h = rw h.0 (
    ap {A = Received} {B = Received}
      (λ a. record a { printed = newline ∷ shown (memory k) r.body ++ a.printed })
      (receive-IsStream memory (k + 1) (some resp_cont) (s ∷ rs) extra h.1))

pub converse-IsStream :
    (memory : ℕ → ℕ → ℕ) (answers : List (List ℕ)) (rs extra : List Response)
    → IsStream rs
    → converse memory answers (rs ++ extra) ≡ read_up (shown_all (memory 0) 0 rs) extra
unfolding converse read_up
converse-IsStream memory answers rs extra h =
    rw (receive-IsStream (memory 0) 0 none rs extra h) refl

c_string-zero : (cs behind : List ℕ) → All (λ c. c ≢ 0) cs → c_string (cs ++ (0 ∷ behind)) ≡ cs
unfolding c_string
c_string-zero [] behind h = refl
c_string-zero (c ∷ cs) behind h =
    let other : (c == 0) ≡ false = ground (arith, h.0) in
    rw (other, c_string-zero cs behind h.1) refl

-- A body that ends in its terminator is printed up to it, whatever stands behind it.
pub shown-terminated :
    (garbage : ℕ) (text : List ℕ) → All (λ c. c ≢ 0) text → shown garbage (text ++ (0 ∷ [])) ≡ text
unfolding shown
shown-terminated garbage text h =
    let some_body : (length (text ++ (0 ∷ [])) == 0) ≡ false =
      ground (arith, length-append text (0 ∷ [])) in
    rw
      (
        some_body,
        append_assoc text (0 ∷ []) (garbage ∷ 0 ∷ []),
        c_string-zero text (garbage ∷ 0 ∷ []) h,
      )
      refl

-- The byte that malloc left behind a body, where it is not zero.
abbrev pub stray : ℕ → List ℕ
stray garbage = if garbage == 0 then [] else garbage ∷ []

c_string-stray :
    (cs : List ℕ) (garbage : ℕ)
    → All (λ c. c ≢ 0) cs
    → c_string (cs ++ (garbage ∷ 0 ∷ [])) ≡ cs ++ stray garbage
unfolding c_string
c_string-stray [] garbage h = refl
c_string-stray (c ∷ cs) garbage h =
    let other : (c == 0) ≡ false = ground (arith, h.0) in
    rw (other, c_string-stray cs garbage h.1) refl

shown-unterminated :
    (garbage : ℕ) (body : List ℕ)
    → 0 < length body
    → All (λ c. c ≢ 0) body
    → shown garbage body ≡ body ++ stray garbage
unfolding shown
shown-unterminated garbage body pos h =
    let some_body : (length body == 0) ≡ false = ground (arith, pos) in
    rw (some_body, c_string-stray body garbage h) refl

-- The parts of a text, each behind a newline.
unfoldable pub lined : List (List ℕ) → List ℕ
lined [] = []
lined (part ∷ parts) = newline ∷ part ++ lined parts

-- Each part with the byte that malloc left behind its block.
unfoldable pub with_strays : (memory : ℕ → ℕ) (k : ℕ) → List (List ℕ) → List (List ℕ)
with_strays memory k [] = []
with_strays memory k (part ∷ parts) = (part ++ stray (memory k)) ∷ with_strays memory (k + 1) parts

pub shown_all-lined :
    (memory : ℕ → ℕ) (k : ℕ) (rs : List Response)
    → All (λ b. 0 < length b) (bodies rs)
    → All (λ c. c ≢ 0) (joined rs)
    → shown_all memory k rs ≡ lined (with_strays memory k (bodies rs))
unfolding shown_all joined bodies lined with_strays
shown_all-lined memory k [] full h = refl
shown_all-lined memory k (r ∷ rs) full h =
    let (hb, hr) = All-split (λ c. c ≢ 0) r.body (joined rs) h in
    rw (shown-unterminated (memory k) r.body full.0 hb, shown_all-lined memory (k + 1) rs full.1 hr)
      refl
