-- ===== src/DirectoryCopy/Buffer.antt =====
-- The bounded buffer of Homework4/200104004104_main.c: `FileInformation`, `Buffer`,
-- `initialize_buffer`, `buffer_is_empty`, `buffer_is_full`, `buffer_add` and `buffer_get`. Callers hold
-- `buffer_mutex`.
pub mod Fifo
mod Tests
use cse344system_programming.Prelude.{
  ℕ, ◌+◌, ◌-◌, ◌%◌, ◌==◌, Bool, Option, none, some, List, set, get_or, take,
}

-- `FileInformation`.
pub record FileInformation : Type 0 where
  pub src_fd : ℕ
  pub dst_fd : ℕ
  pub src_name : List ℕ
  pub dst_name : List ℕ

-- `Buffer`; `cells` is the memory behind `data`.
pub record Buffer : Type 0 where
  pub cells : List FileInformation
  pub size : ℕ
  pub count : ℕ
  pub head : ℕ
  pub tail : ℕ

-- The memory that malloc gives is an argument. Where it gives none the program ends.
unfoldable pub initialize_buffer : (memory : Option (List FileInformation)) → ℕ → Option Buffer
initialize_buffer none size = none
initialize_buffer (some cells) size =
    some (record { cells = cells; size = size; count = 0; head = 0; tail = 0 })

abbrev pub buffer_is_empty : Buffer → Bool
buffer_is_empty buffer = buffer.count == 0

abbrev pub buffer_is_full : Buffer → Bool
buffer_is_full buffer = buffer.count == buffer.size

abbrev pub path_max : ℕ
path_max = 4096

-- strncpy copies `path_max` bytes at most.
unfoldable pub buffer_add : Buffer → FileInformation → Buffer
buffer_add buffer f = record buffer {
  cells =
      set buffer.cells buffer.tail
        (record f { src_name = take path_max f.src_name; dst_name = take path_max f.dst_name });
  tail = (buffer.tail + 1) % buffer.size;
  count = buffer.count + 1;
}

-- What memory holds that no `buffer_add` has written.
abbrev pub unwritten : FileInformation
unwritten = record { src_fd = 0; dst_fd = 0; src_name = List.[]; dst_name = List.[] }

unfoldable pub buffer_get : Buffer → FileInformation × Buffer
buffer_get buffer = (
  get_or buffer.cells buffer.head unwritten,
  record buffer { head = (buffer.head + 1) % buffer.size; count = buffer.count - 1 },
)
