-- ===== src/FileServer/SafeFile/Invariant.antt =====
-- The semaphores and counters account for where the threads stand, in every reachable state.
use cse344system_programming.Prelude.{
  ℕ, ◌+◌, ◌<◌, ◌≡◌, refl, ◌==◌, if◌then◌else◌, Bool, false, some, List, update, total, total-update,
  total-eq-zero, arith,
}
use cse344system_programming.FileServer.SafeFile.{
  SafeFile, fresh_sfile, Pc, outside, step, System, Step, pick, Reach, start, later,
}
use cse344system_programming.FileServer.SafeFile.Counts.{
  reader_new, reader_in, reader_out, rmutex_else, trying, writer_new, writer_in, writer_out,
  wmutex_else, writes,
}

-- How many threads count under each heading of the readers' side, and of the writers' side.
pub record ReaderTally : Type 0 where
  pub fresh : ℕ
  pub in_region : ℕ
  pub gone : ℕ
  pub at_mutex : ℕ
  pub writing : ℕ

pub record WriterTally : Type 0 where
  pub fresh : ℕ
  pub in_region : ℕ
  pub gone : ℕ
  pub at_mutex : ℕ
  pub trying : ℕ

abbrev pub reader_tally : (ℕ → Pc) → ℕ → ReaderTally
reader_tally pc n = record {
  fresh = total reader_new pc n;
  in_region = total reader_in pc n;
  gone = total reader_out pc n;
  at_mutex = total rmutex_else pc n;
  writing = total writes pc n;
}

abbrev pub writer_tally : (ℕ → Pc) → ℕ → WriterTally
writer_tally pc n = record {
  fresh = total writer_new pc n;
  in_region = total writer_in pc n;
  gone = total writer_out pc n;
  at_mutex = total wmutex_else pc n;
  trying = total trying pc n;
}

-- The readers as a group hold `rsc` from the test of the first that enters to the test of the last
-- that leaves.
pub record ReaderInv (f : SafeFile) (t : ReaderTally) : Type 0 where
  pub count : f.reader_count ≡ t.fresh + t.in_region
  pub mutex : f.rmutex + t.fresh + t.gone + t.at_mutex ≡ 1
  pub rsc : f.rsc + t.writing + (if t.in_region == 0 then t.gone else 1) ≡ 1

-- So do the writers hold `read_try`.
pub record WriterInv (f : SafeFile) (t : WriterTally) : Type 0 where
  pub count : f.writer_count ≡ t.fresh + t.in_region
  pub mutex : f.wmutex + t.fresh + t.gone + t.at_mutex ≡ 1
  pub read_try : f.read_try + t.trying + (if t.in_region == 0 then t.gone else 1) ≡ 1

-- The tallies change by the thread that moves from `p` to `p'`.
record ReaderMoved (t t' : ReaderTally) (p p' : Pc) : Type 0 where
  fresh : t'.fresh + reader_new p ≡ t.fresh + reader_new p'
  in_region : t'.in_region + reader_in p ≡ t.in_region + reader_in p'
  gone : t'.gone + reader_out p ≡ t.gone + reader_out p'
  at_mutex : t'.at_mutex + rmutex_else p ≡ t.at_mutex + rmutex_else p'
  writing : t'.writing + writes p ≡ t.writing + writes p'

record WriterMoved (t t' : WriterTally) (p p' : Pc) : Type 0 where
  fresh : t'.fresh + writer_new p ≡ t.fresh + writer_new p'
  in_region : t'.in_region + writer_in p ≡ t.in_region + writer_in p'
  gone : t'.gone + writer_out p ≡ t.gone + writer_out p'
  at_mutex : t'.at_mutex + wmutex_else p ≡ t.at_mutex + wmutex_else p'
  trying : t'.trying + trying p ≡ t.trying + trying p'

step-ReaderInv :
    (w : Bool) (f f' : SafeFile) (p p' : Pc) (t t' : ReaderTally)
    → ReaderInv f t
    → step w f p ≡ some (f', p')
    → ReaderMoved t t' p p'
    → ReaderInv f' t'
unfolding step
step-ReaderInv false f f' outside p' t t' v e m = ground arith
step-ReaderInv w f f' p p' t t' v e m = ground arith

step-WriterInv :
    (w : Bool) (f f' : SafeFile) (p p' : Pc) (t t' : WriterTally)
    → WriterInv f t
    → step w f p ≡ some (f', p')
    → WriterMoved t t' p p'
    → WriterInv f' t'
unfolding step
step-WriterInv false f f' outside p' t t' v e m = ground arith
step-WriterInv w f f' p p' t t' v e m = ground arith

pub record Inv (n : ℕ) (s : System) : Type 0 where
  pub readers : ReaderInv s.file (reader_tally s.pc n)
  pub writers : WriterInv s.file (writer_tally s.pc n)

fresh-Inv : (name : List ℕ) (n : ℕ) → Inv n (record { file = fresh_sfile name; pc = λ _. outside })
fresh-Inv name n = record {
  readers = ground (
    arith,
    total-eq-zero reader_new outside refl n,
    total-eq-zero reader_in outside refl n,
    total-eq-zero reader_out outside refl n,
    total-eq-zero rmutex_else outside refl n,
    total-eq-zero writes outside refl n,
  );
  writers = ground (
    arith,
    total-eq-zero writer_new outside refl n,
    total-eq-zero writer_in outside refl n,
    total-eq-zero writer_out outside refl n,
    total-eq-zero wmutex_else outside refl n,
    total-eq-zero trying outside refl n,
  );
}

module _ (pc : ℕ → Pc) (i n : ℕ) (p' : Pc) (h : i < n) where
  update-ReaderMoved : ReaderMoved (reader_tally pc n) (reader_tally (update pc i p') n) (pc i) p'
  update-ReaderMoved = record {
    fresh = total-update reader_new pc i p' n h;
    in_region = total-update reader_in pc i p' n h;
    gone = total-update reader_out pc i p' n h;
    at_mutex = total-update rmutex_else pc i p' n h;
    writing = total-update writes pc i p' n h;
  }

  update-WriterMoved : WriterMoved (writer_tally pc n) (writer_tally (update pc i p') n) (pc i) p'
  update-WriterMoved = record {
    fresh = total-update writer_new pc i p' n h;
    in_region = total-update writer_in pc i p' n h;
    gone = total-update writer_out pc i p' n h;
    at_mutex = total-update wmutex_else pc i p' n h;
    trying = total-update trying pc i p' n h;
  }

-- Every access of every thread keeps the account.
pub Step-Inv : {n : ℕ} {s t : System} → Step n s t → Inv n s → Inv n t
Step-Inv {n} {s} (pick i w {f = f} {p = p} lt e) v = record {
  readers =
      step-ReaderInv w s.file f (s.pc i) p (reader_tally s.pc n) (reader_tally (update s.pc i p) n)
        v.readers e (update-ReaderMoved s.pc i n p lt);
  writers =
      step-WriterInv w s.file f (s.pc i) p (writer_tally s.pc n) (writer_tally (update s.pc i p) n)
        v.writers e (update-WriterMoved s.pc i n p lt);
}

-- In every reachable state the semaphores and counters account for where the threads stand.
pub Reach-Inv : {n : ℕ} {name : List ℕ} {s : System} → Reach n name s → Inv n s
Reach-Inv {n} {name} start = fresh-Inv name n
Reach-Inv (later r st) = Step-Inv st (Reach-Inv r)
