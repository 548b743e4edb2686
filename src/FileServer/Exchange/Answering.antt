-- ===== src/FileServer/Exchange/Answering.antt =====
-- What `cmd_copy` of MidtermProject/server.c sends to the client.
use cse344system_programming.Prelude.{
  ℕ, ◌≡◌, refl, sym, append-nil, if_lem, Bool, true, false, if◌then◌else◌, Option, none, some, List,
  [], ◌∷◌, ◌++◌,
}
use cse344system_programming.FileServer.Commands.{
  Response, resp_error, resp_approve, write_response, copy_file,
}
use cse344system_programming.FileServer.Commands.Reply.{
  is_last, IsReply, Answers, replies, questions,
}
use cse344system_programming.FileServer.Exchange.{
  CopyCalls, Copying, transferred, question, report, copy_opened, overwrite, ask_overwrite, copy_to,
  cmd_copy,
}

-- Every write of a response succeeds, and the client's answer is read.
pub record IsHeard (calls : CopyCalls) (answer : Bool) : Type 0 where
  pub answered : calls.answer ≡ some answer
  pub asks_header : calls.asks_header ≡ true
  pub asks_body : calls.asks_body ≡ true
  pub reports_header : calls.reports_header ≡ true
  pub reports_body : calls.reports_body ≡ true

-- What a command sent is a reply, or becomes one by an error response.
abbrev pub Completes : (success : Bool) → List Response → Type 0
Completes success rs =
    (error : Response)
    → error.stat ≡ resp_error
    → IsReply (if success then rs else rs ++ (error ∷ []))

pub failed-Completes : Completes false []
failed-Completes error h = rw h refl

pub single-Completes : (r : Response) → is_last r.stat ≡ true → Completes true (r ∷ [])
single-Completes r last error h = last

-- Behind `sent`, the copying completes a reply.
abbrev Extends : (sent : List Response) → Copying → Type 0
Extends sent c = (rs : List Response) × (c.sent ≡ sent ++ rs) × Completes c.success rs

failed-Extends :
    (sent : List Response) (dest : Option (List ℕ))
    → Extends sent (record { dest = dest; sent = sent; success = false })
failed-Extends sent dest = ([], sym (append-nil sent), failed-Completes)

report-Extends :
    (calls : CopyCalls) (answer : Bool) (sent : List Response) (dest : List ℕ) (moved : Option ℕ)
    → IsHeard calls answer
    → Extends sent (report calls sent dest moved)
unfolding report write_response transferred
report-Extends calls answer sent dest none heard = failed-Extends sent (some dest)
report-Extends calls answer sent dest (some n) heard =
    rw (heard.reports_header, heard.reports_body)
      (transferred n ∷ [], refl, single-Completes (transferred n) refl)

copy_opened-Extends :
    (calls : CopyCalls) (answer : Bool) (content : List ℕ) (sent : List Response)
    → IsHeard calls answer
    → Extends sent (copy_opened calls content sent)
unfolding copy_opened
copy_opened-Extends calls answer content sent heard =
    let (dest, moved) = copy_file content [] calls.room in
    let reported : Extends sent (report calls sent dest moved) =
      report-Extends calls answer sent dest moved heard in
    if_lem (Extends sent) calls.locked reported (failed-Extends sent (some []))

-- What is sent by a command with a question in it, and by the error response behind it.
abbrev pub Answered : (answer success : Bool) → List Response → Type 0
Answered answer success rs =
    (error : Response)
    → error.stat ≡ resp_error
    → Answers answer (if success then rs else rs ++ (error ∷ []))

pub Completes-Answered :
    (answer success : Bool) (rs : List Response) → Completes success rs → Answered answer success rs
Completes-Answered answer success rs h error e = replies (h error e)

abbrev IsAnsweredCopy : (answer : Bool) → Copying → Type 0
IsAnsweredCopy answer c = Answered answer c.success c.sent

new-IsAnsweredCopy : (answer : Bool) (c : Copying) → Extends [] c → IsAnsweredCopy answer c
new-IsAnsweredCopy answer c (rs, sent, h) = rw sent (Completes-Answered answer c.success rs h)

-- A question that is answered by yes.
question-Answered :
    (q : Response) (success : Bool) (rs : List Response)
    → q.stat ≡ resp_approve
    → Completes success rs
    → Answered true success (q ∷ rs)
question-Answered q true rs e h error k = questions q e (h error k)
question-Answered q false rs e h error k = questions q e (h error k)

question-IsAnsweredCopy :
    (q : Response) (c : Copying)
    → q.stat ≡ resp_approve
    → Extends (q ∷ []) c
    → IsAnsweredCopy true c
question-IsAnsweredCopy q c e (rs, sent, h) = rw sent (question-Answered q c.success rs e h)

overwrite-IsAnsweredCopy :
    (calls : CopyCalls) (answer : Bool) (q : Response) (content : List ℕ) (dest : Option (List ℕ))
    → IsHeard calls answer
    → q.stat ≡ resp_approve
    → IsAnsweredCopy answer (overwrite calls content dest (q ∷ []) (some answer))
unfolding overwrite
overwrite-IsAnsweredCopy calls false q content dest heard e = λ error h. questions q e refl
overwrite-IsAnsweredCopy calls true q content dest heard e =
    if_lem (IsAnsweredCopy true) calls.reopens
      (question-IsAnsweredCopy q (copy_opened calls content (q ∷ [])) e
        (copy_opened-Extends calls true content (q ∷ []) heard))
      (question-IsAnsweredCopy q (record { dest = dest; sent = q ∷ []; success = false }) e
        (failed-Extends (q ∷ []) dest))

ask_overwrite-IsAnsweredCopy :
    (calls : CopyCalls) (answer : Bool) (src_file content : List ℕ) (dest : Option (List ℕ))
    → IsHeard calls answer
    → IsAnsweredCopy answer (ask_overwrite calls src_file content dest)
unfolding ask_overwrite write_response question
ask_overwrite-IsAnsweredCopy calls answer src_file content dest heard =
    simp (heard.asks_header, heard.asks_body, heard.answered)
      (overwrite-IsAnsweredCopy calls answer (question src_file) content dest heard refl)

copy_to-IsAnsweredCopy :
    (calls : CopyCalls) (answer : Bool) (src_file content : List ℕ) (dest : Option (List ℕ))
    → IsHeard calls answer
    → IsAnsweredCopy answer (copy_to calls src_file content dest)
unfolding copy_to
copy_to-IsAnsweredCopy calls answer src_file content (some there) heard =
    ask_overwrite-IsAnsweredCopy calls answer src_file content (some there) heard
copy_to-IsAnsweredCopy calls answer src_file content none heard =
    if_lem (IsAnsweredCopy answer) calls.creates
      (new-IsAnsweredCopy answer (copy_opened calls content [])
        (copy_opened-Extends calls answer content [] heard))
      (ask_overwrite-IsAnsweredCopy calls answer src_file content none heard)

cmd_copy-at :
    (calls : CopyCalls) (answer : Bool) (src_file : List ℕ) (dest : Option (List ℕ))
    (source : Option (List ℕ))
    → calls.source ≡ source
    → IsHeard calls answer
    → IsAnsweredCopy answer (cmd_copy calls src_file dest)
unfolding cmd_copy
cmd_copy-at calls answer src_file dest none e heard =
    rw e (Completes-Answered answer false [] failed-Completes)
cmd_copy-at calls answer src_file dest (some content) e heard =
    let opened : cmd_copy calls src_file dest ≡ copy_to calls src_file content dest = rw e refl in
    rw opened (copy_to-IsAnsweredCopy calls answer src_file content dest heard)

-- The responses that `cmd_copy` leaves, with the error response behind a failure.
pub cmd_copy-Answers :
    (calls : CopyCalls) (answer : Bool) (src_file : List ℕ) (dest : Option (List ℕ))
    (error : Response)
    → IsHeard calls answer
    → error.stat ≡ resp_error
    → let c = cmd_copy calls src_file dest in
      Answers answer (if c.success then c.sent else c.sent ++ (error ∷ []))
cmd_copy-Answers calls answer src_file dest error heard e =
    cmd_copy-at calls answer src_file dest calls.source refl heard error e
