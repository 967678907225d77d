-- ===== src/Malloc/Trace/Bump.antt =====
-- One successful call of `malloc_from_pool` in a ready state.
use btkernel.Base.{
  ℕ, ◌+◌, ◌≤◌, ◌≡◌, refl, sym, ◌∙◌, inl, inr, some, List, arith, ℕ_discrete, get_elem?, set, All,
  length-set, get_elem?-set_self, get_elem?-set_ne, lt-length_of_get_elem?, All-get_elem?, All-set,
}
use btkernel.Malloc.{ChunkInfo, MallocInfo}
use btkernel.Malloc.Take.{IsChunk, Fits, bumped, Taken, Taken-IsChunk}
use btkernel.Malloc.Trace.{Block, Apart, ChunksApart, IsReady, IsOwned}

-- The same chunk, handed out at least as far.
record Grows (c d : ChunkInfo) : Type 0 where
  start : d.chunk_start ≡ c.chunk_start
  end : d.chunk_end ≡ c.chunk_end
  cur : c.chunk_cur ≤ d.chunk_cur

module _ (cs : List ChunkInfo) (i size : ℕ) (c : ChunkInfo) (e : get_elem? cs i ≡ some c) where
  grown : List ChunkInfo
  grown = set cs i (bumped c size)

  bump_self : get_elem? grown i ≡ some (bumped c size)
  unfolding grown
  bump_self = get_elem?-set_self cs i (bumped c size) (lt-length_of_get_elem? cs i e)

  -- What stands at `j` before and after the chunk at `i` is bumped.
  bump_back :
      (j : ℕ) (d : ChunkInfo)
      → get_elem? grown j ≡ some d
      → (d' : ChunkInfo) × (get_elem? cs j ≡ some d') × Grows d' d
  unfolding grown
  bump_back j d g = elim (ℕ_discrete i j) [
    | yes p ↦ (c, ground arith, ground (arith, bump_self))
    | no p ↦ (
      d,
      sym (get_elem?-set_ne cs i j (bumped c size) p) ∙ g,
      record { start = refl; end = refl; cur = omega arith },
    )
  ]

  bump_forth :
      (j : ℕ) (d : ChunkInfo)
      → get_elem? cs j ≡ some d
      → (d' : ChunkInfo) × (get_elem? grown j ≡ some d') × Grows d d'
  unfolding grown
  bump_forth j d g = elim (ℕ_discrete i j) [
    | yes p ↦ (bumped c size, ground (arith, bump_self), ground (arith, bump_self))
    | no p ↦ (
      d,
      get_elem?-set_ne cs i j (bumped c size) p ∙ g,
      record { start = refl; end = refl; cur = omega arith },
    )
  ]

  Owned-grown : (b : Block) → IsOwned cs b → IsOwned grown b
  Owned-grown b o =
      let (d, g, grows) = bump_forth o.i o.chunk o.found in
      record {
        i = o.i;
        chunk = d;
        found = g;
        low = omega (arith, o.low, grows.start);
        high = omega (arith, o.high, grows.cur);
      }

  ChunksApart-grown : ChunksApart cs → ChunksApart grown
  ChunksApart-grown apart j k x y gj gk ne =
      let (x', ej, gx) = bump_back j x gj in
      let (y', ek, gy) = bump_back k y gk in
      elim (apart j k x' y' ej ek ne) [
        | inl h ↦ inl (omega (arith, gx.end, gy.start))
        | inr h ↦ inr (omega (arith, gy.end, gx.start))
      ]

  -- The block that the bump hands out is apart from every block that was owned before.
  Apart-fresh :
      All IsChunk cs
      → ChunksApart cs
      → c.chunk_cur + size ≤ c.chunk_end
      → (b : Block) → IsOwned cs b
      → Apart (record { addr = c.chunk_cur; size = size }) b
  Apart-fresh sound apart room b o =
      let v = All-get_elem? IsChunk cs i sound e in
      let w = All-get_elem? IsChunk cs o.i sound o.found in
      elim (ℕ_discrete i o.i) [
        | yes p ↦ inr (ground (arith, o.found, o.high))
        | no p ↦ elim (apart i o.i c o.chunk e o.found p) [
          | inl h ↦ inl (omega (arith, o.low))
          | inr h ↦ inr (omega (arith, o.high, v.above, w.below))
        ]
      ]

-- One successful call in a ready state: the state stays ready, what was owned stays owned, and the
-- new block is owned and apart from the old ones.
pub record Step (info info' : MallocInfo) (block : Block) : Type 0 where
  pub ready : IsReady info'
  pub kept : (b : Block) → IsOwned info.cinfo b → IsOwned info'.cinfo b
  pub owned : IsOwned info'.cinfo block
  pub fresh : (b : Block) → IsOwned info.cinfo b → Apart block b
  pub fits : (size : ℕ) → All (Fits size) info.cinfo → All (Fits size) info'.cinfo

pub Taken-Step :
    (info info' : MallocInfo) (size a b ret : ℕ)
    → IsReady info
    → info'.pool_range ≡ info.pool_range
    → Taken info.cinfo size a b ret info'.cinfo
    → Step info info' (record { addr = ret; size = size })
unfolding grown
Taken-Step info info' size a b ret ready kept t =
    let cs = info.cinfo in
    let v = All-get_elem? IsChunk cs t.i ready.sound t.found in
    record {
      ready = record {
        ranges = kept ∙ ready.ranges;
        count = rw (t.moved, length-set) ready.count;
        sound = Taken-IsChunk cs size a b ret ready.sound t;
        apart = rw t.moved (ChunksApart-grown cs t.i size t.chunk t.found ready.apart);
      };
      kept = λ d o. rw t.moved (Owned-grown cs t.i size t.chunk t.found d o);
      owned = record {
        i = t.i;
        chunk = bumped t.chunk size;
        found = rw t.moved (bump_self cs t.i size t.chunk t.found);
        low = omega (arith, v.above, t.is_cur);
        high = omega (arith, t.is_cur);
      };
      fresh = λ d o. rw t.is_cur (
          Apart-fresh cs t.i size t.chunk t.found ready.sound ready.apart
            (omega (arith, t.room, t.is_cur)) d o);
      fits = λ n f. rw t.moved (
          All-set (Fits n) cs t.i (bumped t.chunk size) f
            (All-get_elem? (Fits n) cs t.i f t.found));
    }
