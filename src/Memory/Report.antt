-- ===== src/Memory/Report.antt =====
-- `debug_print_free_list` of src/memory.c.
use shogun_os.Base.{
  ℕ, zero, suc, ◌+◌, ◌<◌, ◌≡◌, refl, ap, true, false, Option, none, some, List, [], ◌∷◌, ◌++◌, ◌==◌,
  if◌then◌else◌, add32, codes, length, arith,
}
use shogun_os.Printing.{Print, string_out, decimal_out, hex_out}
use shogun_os.Memory.{Heap, size_at, next_at, sizeof_free_segment}
use shogun_os.Memory.Chain.{Seg, Chain, Laid}

-- `if (current->next_segment) put_hex(current->next_segment); else output_string("0x0");`
unfoldable pub print_next : (next : ℕ) → Print
print_next next = if next == 0 then string_out (codes "0x0") else hex_out next

-- The calls of one round. The source ends its line with a backslash and an `n`.
unfoldable pub print_segment : Heap → (current : ℕ) → List Print
unfolding print_next
print_segment h current =
    hex_out current
    ∷ string_out (codes ": ")
    ∷ hex_out (add32 (add32 current sizeof_free_segment) (size_at h current))
    ∷ string_out (codes ", FreeSegment { size: ")
    ∷ decimal_out (size_at h current)
    ∷ string_out (codes ", next_segment: ")
    ∷ print_next (next_at h current)
    ∷ string_out (codes " }\\n")
    ∷ []

-- The loop; `none` means that the fuel ran out.
unfoldable pub print_segments : ℕ → Heap → (current : ℕ) → Option (List Print)
unfolding print_segment
print_segments zero h current = none
print_segments (suc fuel) h current = elim (current == 0) [
  | true ↦ some []
  | false ↦ elim (print_segments fuel h (next_at h current)) [
    | none ↦ none
    | some calls ↦ some (print_segment h current ++ calls)
  ]
]

unfoldable pub debug_print_free_list : ℕ → Heap → Option (List Print)
unfolding print_segments
debug_print_free_list fuel h =
    if h.first_free == 0
    then some (string_out (codes "Free list is empty\\n") ∷ [])
    else print_segments fuel h h.first_free

-- The address of the first segment, if there is one.
abbrev first_address : List Seg → Print
first_address [] = string_out (codes "0x0")
first_address ((a, n) ∷ segs) = hex_out a

-- A line for each segment: its two ends, its size, and the address of the next.
abbrev pub lines : List Seg → List Print
lines [] = []
lines ((a, n) ∷ segs) =
    (hex_out a
      ∷ string_out (codes ": ")
      ∷ hex_out (a + 8 + n)
      ∷ string_out (codes ", FreeSegment { size: ")
      ∷ decimal_out n
      ∷ string_out (codes ", next_segment: ")
      ∷ first_address segs
      ∷ string_out (codes " }\\n")
      ∷ [])
    ++ lines segs

print_next-first_address :
    (w : ℕ → ℕ) (p : ℕ) (segs : List Seg) → Chain w p segs → print_next p ≡ first_address segs
unfolding print_next
print_next-first_address w p [] c = rw c refl
print_next-first_address w p ((a, n) ∷ segs) (e, nz, _, _) =
    let set : (a == 0) ≡ false = ground (arith, nz) in rw (e, print_next, set) refl

print_segment_lem :
    (h : Heap) (lo a n : ℕ) (segs : List Seg)
    → Chain h.word a ((a, n) ∷ segs)
    → Laid lo ((a, n) ∷ segs)
    → print_segment h a ++ lines segs ≡ lines ((a, n) ∷ segs)
unfolding print_segment
print_segment_lem h lo a n segs (_, _, size, c) (_, _, fit, _) =
    let end : add32 (add32 a 8) n ≡ a + 8 + n = ground arith in
    let next = print_next-first_address h.word (next_at h a) segs c in
    rw (print_segment, size, end, next) refl

print_segments_lem :
    (fuel : ℕ) (h : Heap) (lo p : ℕ) (segs : List Seg)
    → length segs < fuel
    → Chain h.word p segs
    → Laid lo segs
    → print_segments fuel h p ≡ some (lines segs)
unfolding print_segments
print_segments_lem zero h lo p segs enough c l = absurd (omega arith)
print_segments_lem (suc fuel) h lo p [] enough c l = rw c refl
print_segments_lem (suc fuel) h lo p ((a, n) ∷ segs) enough (e, nz, size, c) (la, pos, fit, l) =
    let set : (a == 0) ≡ false = ground (arith, nz) in
    let rest = print_segments_lem fuel h (a + 8 + n) (next_at h a) segs (omega arith) c l in
    let line = print_segment_lem h lo a n segs (refl, nz, size, c) (la, pos, fit, l) in
    rw (e, print_segments, set, e, rest, e) (ap some line)

-- On a well-formed free list, with more fuel than segments, the report ends: it says that the list is
-- empty exactly when it is, and else prints one line for each segment in order, with the segment's
-- two ends, its size and the address of the next segment. No line ends with a newline: the source
-- escapes the backslash.
pub debug_print_free_list_lem :
    (fuel : ℕ) (h : Heap) (segs : List Seg)
    → length segs < fuel
    → Chain h.word h.first_free segs
    → Laid 0 segs
    → debug_print_free_list fuel h
      ≡ some
          (if length segs == 0 then string_out (codes "Free list is empty\\n") ∷ [] else lines segs)
unfolding debug_print_free_list
debug_print_free_list_lem fuel h [] enough c l = rw c refl
debug_print_free_list_lem fuel h ((a, n) ∷ segs) enough c l =
    let set : (h.first_free == 0) ≡ false = ground (arith, c.0, c.1) in
    let some_left : (suc (length segs) == 0) ≡ false = ground arith in
    rw (set, some_left) (print_segments_lem fuel h 0 h.first_free ((a, n) ∷ segs) enough c l)
