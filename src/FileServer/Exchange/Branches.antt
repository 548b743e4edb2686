-- ===== src/FileServer/Exchange/Branches.antt =====
-- The branches of `cmd_copy` of MidtermProject/server.c.
use cse344system_programming.Prelude.{
  ℕ, ◌≤◌, ◌≡◌, leb, Bool, true, false, Option, none, some, List, [], ◌∷◌, ◌++◌, length, take, arith,
  take_all, if◌then◌else◌, ◌&&◌,
}
use cse344system_programming.FileServer.Commands.{Response, write_response}
use cse344system_programming.FileServer.Commands.Transfer.{copy_file_lem}
use cse344system_programming.FileServer.Exchange.{
  CopyCalls, transferred, question, report, copy_opened, overwrite, ask_overwrite, copy_to,
  cmd_copy,
}

-- Every call but the first open of the destination succeeds.
abbrev pub Succeeds : CopyCalls → (content : List ℕ) → Type 0
Succeeds calls content =
    (calls.source ≡ some content)
    × (calls.asks_header ≡ true)
    × (calls.asks_body ≡ true)
    × (calls.reopens ≡ true)
    × (calls.locked ≡ true)
    × (length content ≤ calls.room)
    × (calls.reports_header ≡ true)
    × (calls.reports_body ≡ true)

copy_opened_lem :
    (calls : CopyCalls) (content : List ℕ) (sent : List Response)
    → Succeeds calls content
    → copy_opened calls content sent ≡ record {
      dest = some content;
      sent = sent ++ (transferred (length content) ∷ []);
      success = true;
    }
unfolding copy_opened report write_response
copy_opened_lem calls content sent h =
    ground (arith, h, copy_file_lem content [] calls.room, take_all calls.room content)

-- The destination is new, and open makes it.
abbrev pub is_new : CopyCalls → Option (List ℕ) → Bool
is_new calls none = calls.creates
is_new calls (some content) = false

-- With every call that it depends on, `cmd_copy` copies the whole file to a new destination; otherwise it
-- asks, and copies the file over the one that is there for a yes, and leaves that as it was for a no.
pub cmd_copy_lem :
    (calls : CopyCalls) (src_file content : List ℕ) (dest : Option (List ℕ)) (answer : Bool)
    → Succeeds calls content
    → calls.answer ≡ some answer
    → cmd_copy calls src_file dest ≡ (
        if is_new calls dest
        then record {
          dest = some content;
          sent = transferred (length content) ∷ [];
          success = true;
        }
        else if answer
        then record {
          dest = some content;
          sent = question src_file ∷ transferred (length content) ∷ [];
          success = true;
        }
        else record { dest = dest; sent = question src_file ∷ []; success = true })
unfolding cmd_copy copy_to ask_overwrite overwrite write_response
cmd_copy_lem calls src_file content none true h e = ground (
  arith,
  h,
  e,
  copy_opened_lem calls content [] h,
  copy_opened_lem calls content (question src_file ∷ []) h,
)
cmd_copy_lem calls src_file content none false h e =
    ground (arith, h, e, copy_opened_lem calls content [] h)
cmd_copy_lem calls src_file content (some there) true h e =
    ground (arith, h, e, copy_opened_lem calls content (question src_file ∷ []) h)
cmd_copy_lem calls src_file content (some there) false h e = ground (arith, h, e)

-- Where the answer is yes and the copying fails, for want of a lock or of room, the file that was there is
-- gone, and no response but the question was sent.
pub cmd_copy-loses :
    (calls : CopyCalls) (src_file content there : List ℕ)
    → calls.source ≡ some content
    → calls.asks_header ≡ true
    → calls.asks_body ≡ true
    → calls.answer ≡ some true
    → calls.reopens ≡ true
    → (calls.locked && leb (length content) calls.room) ≡ false
    → cmd_copy calls src_file (some there) ≡ record {
      dest = some (if calls.locked then take calls.room content else []);
      sent = question src_file ∷ [];
      success = false;
    }
unfolding cmd_copy copy_to ask_overwrite overwrite write_response copy_opened report
cmd_copy-loses calls src_file content there s a b e r f =
    ground (arith, s, a, b, e, r, f, copy_file_lem content [] calls.room)
