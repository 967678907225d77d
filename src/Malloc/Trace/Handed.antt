-- ===== src/Malloc/Trace/Handed.antt =====
-- Sequences of calls of `malloc_from_pool`: the blocks that they hand out are pairwise disjoint.
use btkernel.Base.{
  ℕ, ◌<◌, ◌≡◌, refl, ◌⊎◌, inl, inr, some, List, [], ◌∷◌, get_elem?, All, All-mono, Run, ◌>>=◌,
  panic, ok, stop,
}
use btkernel.Malloc.{MallocInfo, malloc_from_pool}
use btkernel.Malloc.Take.{Fits, IsRequest, malloc_from_pool-Taken}
use btkernel.Malloc.Trace.{
  Block, Apart, Apart-symm, Disjoint, initial_ranges, IsReady, IsOwned, pool_bounds,
}
use btkernel.Malloc.Trace.Bump.{Step, Taken-Step}

-- A request of a caller: the pool and the size.
abbrev pub Request : Type 0
Request = ℕ × ℕ

abbrev pub Allowed : MallocInfo → Request → Type 0
Allowed info (pool, size) = (pool < 3) × All (Fits size) info.cinfo

pub IsRequest-of :
    (info : MallocInfo) (pool size : ℕ)
    → IsReady info
    → Allowed info (pool, size)
    → (a : ℕ) × (b : ℕ) × (get_elem? initial_ranges pool ≡ some (a, b))
      × IsRequest info pool size a b
IsRequest-of info pool size ready allowed =
    let (a, b, range, order, inside) = pool_bounds pool allowed.0 in
    (
      a,
      b,
      range,
      record {
        range = rw ready.ranges range;
        order = order;
        inside = rw ready.count inside;
        sound = ready.sound;
        fits = allowed.1;
      },
    )

pub malloc_from_pool-Step :
    (info : MallocInfo) (pool size : ℕ)
    → IsReady info
    → Allowed info (pool, size)
    → ((ret : ℕ) × (info' : MallocInfo) × (malloc_from_pool info pool size ≡ ok (ret, info'))
        × Step info info' (record { addr = ret; size = size }))
      ⊎ (malloc_from_pool info pool size ≡ stop panic)
malloc_from_pool-Step info pool size ready allowed =
    let (a, b, range, request) = IsRequest-of info pool size ready allowed in
    elim (malloc_from_pool-Taken info pool size a b request) [
      | inl (ret, info', run, kept, t) ↦
          inl (ret, info', run, Taken-Step info info' size a b ret ready kept t)
      | inr (run, full) ↦ inr run
    ]

-- The calls for a list of requests, one after the other, with the blocks that they return.
pub malloc_all : MallocInfo → List Request → Run (List Block × MallocInfo)
malloc_all info [] = ok ([], info)
malloc_all info ((pool, size) ∷ rest) = do
  (ret, info') ← malloc_from_pool info pool size
  (blocks, last) ← malloc_all info' rest
  ok (record { addr = ret; size = size } ∷ blocks, last)

abbrev pub AllRequests : MallocInfo → List Request → Type 0
AllRequests info reqs = All (Allowed info) reqs

-- What a sequence of calls guarantees, beside blocks that are owned already.
pub record Handed (info info' : MallocInfo) (blocks : List Block) : Type 0 where
  pub ready : IsReady info'
  pub kept : (b : Block) → IsOwned info.cinfo b → IsOwned info'.cinfo b
  pub owned : All (IsOwned info'.cinfo) blocks
  pub disjoint : Disjoint blocks
  pub fresh : (b : Block) → IsOwned info.cinfo b → All (λ d. Apart d b) blocks

pub Handed-cons :
    (info next info' : MallocInfo) (b : Block) (blocks : List Block)
    → Step info next b
    → Handed next info' blocks
    → Handed info info' (b ∷ blocks)
Handed-cons info next info' b blocks s t = record {
  ready = t.ready;
  kept = λ d o. t.kept d (s.kept d o);
  owned = (t.kept b s.owned, t.owned);
  disjoint = (All-mono blocks (λ d. Apart-symm d b) (t.fresh b s.owned), t.disjoint);
  fresh = λ d o. (s.fresh d o, t.fresh d (s.kept d o));
}

-- From a ready state, a sequence of requests to existing pools whose sizes do not wrap at any chunk
-- either runs to its end or stops in `BUG()`. If it ends, the blocks are pairwise disjoint, each of
-- them lies in the handed out part of a chunk and apart from every block owned before, those stay
-- owned, and the state is ready again.
pub malloc_all-Disjoint :
    (info : MallocInfo) (reqs : List Request)
    → IsReady info
    → AllRequests info reqs
    → ((blocks : List Block) × (info' : MallocInfo) × (malloc_all info reqs ≡ ok (blocks, info'))
        × Handed info info' blocks)
      ⊎ (malloc_all info reqs ≡ stop panic)
unfolding malloc_all
malloc_all-Disjoint info [] ready allowed = inl (
  [],
  info,
  refl,
  record { ready = ready; kept = λ b o. o; owned = tt; disjoint = tt; fresh = λ b o. tt },
)
malloc_all-Disjoint info ((pool, size) ∷ rest) ready allowed =
    elim (malloc_from_pool-Step info pool size ready allowed.0) [
      | inr run ↦ inr (rw (run, ◌>>=◌))
      | inl (ret, next, run, s) ↦
          elim (malloc_all-Disjoint next rest s.ready
            (All-mono rest (λ r a. (a.0, s.fits r.1 a.1)) allowed.1)) [
              | inr run' ↦ inr (rw (run, ◌>>=◌, run'))
              | inl (blocks, info', run', t) ↦ inl (
                _,
                info',
                rw (run, ◌>>=◌, run'),
                Handed-cons info next info' (record { addr = ret; size = size }) blocks s t,
              )
            ]
    ]
