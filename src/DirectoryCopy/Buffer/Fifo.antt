-- ===== src/DirectoryCopy/Buffer/Fifo.antt =====
-- The buffer behaves as a bounded list of files, the oldest first.
use cse344system_programming.Prelude.{
  ℕ, ◌+◌, ◌-◌, ◌%◌, ◌≤◌, ◌<◌, ◌≡◌, ◌≢◌, refl, ap, ◌∙◌, sym, some, List, [], ◌∷◌, ◌++◌, set, length,
  length-set, arith, next_index, next_index_mod, advance, advance_lem, advance-add-one,
  advance_of_ne_zero, span, span-set_end, span-tail, take,
}
use cse344system_programming.DirectoryCopy.Buffer.{
  FileInformation, Buffer, initialize_buffer, buffer_add, buffer_get, unwritten, path_max,
}

pub record IsValid (b : Buffer) : Type 0 where
  pub room : b.count ≤ b.size
  pub head_in : b.head < b.size
  pub tail_at : b.tail ≡ advance b.size b.head b.count
  pub allocated : length b.cells ≡ b.size

-- The files of a buffer, oldest first.
abbrev pub contents : Buffer → List FileInformation
contents b = span unwritten b.size b.cells b.head b.count

-- A file as the buffer keeps it, with its names cut to the room for them.
abbrev pub kept : FileInformation → FileInformation
kept f = record f { src_name = take path_max f.src_name; dst_name = take path_max f.dst_name }

pub initialize_buffer-IsValid :
    (cells : List FileInformation) (size : ℕ) (b : Buffer)
    → length cells ≡ size
    → 0 < size
    → initialize_buffer (some cells) size ≡ some b
    → IsValid b × (contents b ≡ [])
unfolding initialize_buffer
initialize_buffer-IsValid cells size b e h i = ground arith

module _ (b : Buffer) (v : IsValid b) where
  tail_in : b.tail < b.size
  tail_in = ground (arith, v.room, v.head_in, v.tail_at, advance_lem b.size b.head b.count)

  -- On a valid buffer that is not full `buffer_add` adds the file behind the others, and keeps the buffer
  -- valid.
  pub buffer_add_lem :
      (f : FileInformation)
      → b.count ≢ b.size
      → let b' = buffer_add b f in
        IsValid b'
        × (contents b' ≡ contents b ++ kept f ∷ [])
        × (b'.size ≡ b.size)
        × (b'.count ≡ b.count + 1)
  unfolding buffer_add
  buffer_add_lem f h =
      let at_end : (b.tail + 1) % b.size ≡ advance b.size b.head (b.count + 1) =
        next_index_mod b.size b.tail tail_in
        ∙ ap (next_index b.size) v.tail_at
        ∙ sym (advance-add-one b.size b.head b.count) in
      (
        record {
          room = omega (arith, v.room);
          head_in = v.head_in;
          tail_at = at_end;
          allocated = length-set b.cells b.tail (kept f) ∙ v.allocated;
        },
        ap (λ k. span unwritten b.size (set b.cells k (kept f)) b.head (b.count + 1)) v.tail_at
            ∙ span-set_end unwritten b.size b.cells (kept f) b.head b.count v.head_in
                (omega (arith, v.room)) v.allocated,
        refl,
        refl,
      )

  -- On a valid buffer that is not empty `buffer_get` takes the oldest file, leaves the others in order,
  -- and keeps the buffer valid.
  pub buffer_get_lem :
      b.count ≢ 0
      → let (f, b') = buffer_get b in
        IsValid b' × (contents b ≡ f ∷ contents b') × (b'.size ≡ b.size) × (b'.count ≡ b.count - 1)
  unfolding buffer_get
  buffer_get_lem h =
      let next : (b.head + 1) % b.size ≡ next_index b.size b.head =
        next_index_mod b.size b.head v.head_in in
      (
        record {
          room = omega (arith, v.room);
          head_in = rw next (ground (arith, v.head_in));
          tail_at = rw next (v.tail_at ∙ advance_of_ne_zero b.size b.head b.count h);
          allocated = v.allocated;
        },
        rw next (span-tail unwritten b.size b.cells b.head b.count h),
        refl,
        refl,
      )
