-- ===== src/Tb/Jumps.antt =====
-- `tb_add_jump` of btmod/bt/peep/tb.c keeps a set of the offsets that are jumped to.
use btkernel.Base.{
  ℕ, ◌+◌, ◌*◌, ◌≡◌, refl, ap, ◌∙◌, ◌≢◌, inl, inr, Bool, true, false, ◌||◌, List, [], ◌∷◌, ◌++◌,
  append_assoc, arith, ◌==◌, Bool-cases, length, take, length-append, get_elem?-append_length,
  take-length, ◌>>=◌, read-some, ok,
}
use btkernel.Malloc.{MallocInfo, pool_kmalloc, malloc_from_pool}
use btkernel.Tb.{Tb, tb_kmalloc, search_loop, search_offset, tb_add_jump}

abbrev pub member : ℕ → List ℕ → Bool
member a [] = false
member a (x ∷ xs) = (x == a) || member a xs

abbrev pub IsDistinct : List ℕ → Type 0
IsDistinct [] = Unit
IsDistinct (x ∷ xs) = (member x xs ≡ false) × IsDistinct xs

-- The offsets that have been recorded fill the array.
abbrev pub IsRecorded : Tb → Type 0
IsRecorded tb = tb.num_jumps ≡ length tb.jump_boundaries.items

search_loop-append :
    (pre xs : List ℕ) (off : ℕ)
    → search_loop (pre ++ xs) off (length xs) (length pre) ≡ ok (member off xs)
unfolding search_loop
search_loop-append pre [] off = refl
search_loop-append pre (x ∷ xs) off =
    let rest = search_loop-append (pre ++ x ∷ []) xs off in
    let next : length (pre ++ x ∷ []) ≡ length pre + 1 = length-append pre (x ∷ []) in
    let rest' : search_loop (pre ++ x ∷ xs) off (length xs) (length pre + 1) ≡ ok (member off xs) =
      rw (append_assoc, next) at rest in
    rw (read-some (pre ++ x ∷ xs) (length pre) (get_elem?-append_length pre x xs), ◌>>=◌)
      (ground (arith, rest'))

-- `search_offset` answers whether the offset has been recorded.
pub search_offset-member :
    (tb : Tb) (off : ℕ)
    → IsRecorded tb
    → search_offset tb off ≡ ok (member off tb.jump_boundaries.items)
unfolding search_offset
search_offset-member tb off whole = rw whole (search_loop-append [] tb.jump_boundaries.items off)

member-append : (x y : ℕ) (xs : List ℕ) → member x (xs ++ y ∷ []) ≡ ((y == x) || member x xs)
member-append x y [] = refl
member-append x y (z ∷ xs) = ground (arith, member-append x y xs)

IsDistinct-append :
    (y : ℕ) (xs : List ℕ) → member y xs ≡ false → IsDistinct xs → IsDistinct (xs ++ y ∷ [])
IsDistinct-append y [] new distinct = (refl, tt)
IsDistinct-append y (z ∷ xs) new distinct = (
  ground (arith, member-append z y xs, new, distinct.0),
  IsDistinct-append y xs (ground arith) distinct.1,
)

-- The block with one more offset, in an array at `ret`.
abbrev pub with_jump : Tb → ℕ → ℕ → Tb
with_jump tb ret off = record tb {
  num_jumps = tb.num_jumps + 1;
  jump_boundaries = record { at = ret; items = tb.jump_boundaries.items ++ off ∷ [] };
}

module _ (info : MallocInfo) (tb : Tb) (off : ℕ) (whole : IsRecorded tb) where
  tb_add_jump_known :
      member off tb.jump_boundaries.items ≡ true → tb_add_jump info tb off ≡ ok (tb, info)
  unfolding tb_add_jump
  tb_add_jump_known known = rw (search_offset-member tb off whole, ◌>>=◌, known)

module _ (info info' : MallocInfo) (tb : Tb) (off ret : ℕ) (whole : IsRecorded tb) where
  tb_add_jump_new :
      member off tb.jump_boundaries.items ≡ false
      → malloc_from_pool info pool_kmalloc ((tb.num_jumps + 1) * 2) ≡ ok (ret, info')
      → ret ≢ 0
      → tb_add_jump info tb off ≡ ok (with_jump tb ret off, info')
  unfolding tb_add_jump tb_kmalloc
  tb_add_jump_new new served ne =
      let some_size : (tb.num_jumps + 1) * 2 == 0 ≡ false = ground arith in
      let some_addr : ret == 0 ≡ false = ground arith in
      let all : take tb.num_jumps tb.jump_boundaries.items ≡ tb.jump_boundaries.items =
        ap (λ n. take n tb.jump_boundaries.items) whole ∙ take-length tb.jump_boundaries.items in
      rw (
        search_offset-member tb off whole,
        ◌>>=◌,
        new,
        some_size,
        served,
        some_addr,
        all,
        some_addr,
      )

-- What `tb_add_jump` leaves, where the pool can serve a longer array at `info'`.
pub record Added (info info' : MallocInfo) (tb : Tb) (off : ℕ) (tb' : Tb) (last : MallocInfo)
    : Type 0 where
  pub recorded : IsRecorded tb'
  pub distinct : IsDistinct tb'.jump_boundaries.items
  pub members :
      (x : ℕ)
      → member x tb'.jump_boundaries.items ≡ ((off == x) || member x tb.jump_boundaries.items)
  pub kept : member off tb.jump_boundaries.items ≡ true → (tb' ≡ tb) × (last ≡ info)
  pub grown : member off tb.jump_boundaries.items ≡ false → last ≡ info'

-- Where the recorded offsets are distinct and fill the array, and the kmalloc pool can serve an
-- array for one more, not at 0, `tb_add_jump` returns: the offset is then recorded, with every
-- offset that was, and no other; the offsets stay distinct and fill the array. An offset that was
-- recorded before changes nothing, not even the pool; a new one leaves the pool as the request
-- does.
pub tb_add_jump-Added :
    (info info' : MallocInfo) (tb : Tb) (off ret : ℕ)
    → IsRecorded tb
    → IsDistinct tb.jump_boundaries.items
    → malloc_from_pool info pool_kmalloc ((tb.num_jumps + 1) * 2) ≡ ok (ret, info')
    → ret ≢ 0
    → (tb' : Tb) × (last : MallocInfo) × (tb_add_jump info tb off ≡ ok (tb', last))
      × Added info info' tb off tb' last
tb_add_jump-Added info info' tb off ret whole distinct served ne =
    let items = tb.jump_boundaries.items in
    elim (Bool-cases (member off items)) [
      | inl known ↦ (
        tb,
        info,
        tb_add_jump_known info tb off whole known,
        record {
          recorded = whole;
          distinct = distinct;
          members = λ x. ground (arith, known);
          kept = λ h. (refl, refl);
          grown = λ h. absurd (cc);
        },
      )
      | inr new ↦ (
        with_jump tb ret off,
        info',
        tb_add_jump_new info info' tb off ret whole new served ne,
        record {
          recorded = omega (arith, length-append items (off ∷ []));
          distinct = IsDistinct-append off items new distinct;
          members = λ x. member-append x off items;
          kept = λ h. absurd (cc);
          grown = λ h. refl;
        },
      )
    ]
