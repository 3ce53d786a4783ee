-- ===== src/Level3/MemoryPool/Blocks.antt =====
-- The blocks that the memory pool of src/level3.c hands out.
use native.Mathlib.Nat.{div-add-mod', mul-le-mul_left}
use modembridge.Prelude.{
  ℕ, suc, ◌+◌, ◌*◌, ◌≤◌, ◌<◌, ◌≡◌, refl, sym, ◌∙◌, subst, true, Option, none, some, List, [], ◌∷◌,
  ◌++◌, arith, All,
}
use modembridge.Level3.MemoryPool.{MemoryPool, init, alloc, free, cleared}

-- The calls on a pool.
pub data Call : Type 0 where
  alloc_call : Call
  free_call : Option ℕ → Call

-- The pool after a call, and the block that the call hands out.
unfoldable pub call : Call → MemoryPool → List ℕ × MemoryPool
call alloc_call pool = elim (alloc pool).0 [
  | none ↦ ([], (alloc pool).1)
  | some block ↦ (block ∷ [], (alloc pool).1)
]
call (free_call block) pool = ([], (free pool block).1)

-- All blocks that a history of calls hands out, and the pool.
unfoldable pub run : List Call → MemoryPool → List ℕ × MemoryPool
run [] pool = ([], pool)
run (c ∷ cs) pool =
    let (got, pool') = call c pool in let (more, pool'') = run cs pool' in (got ++ more, pool'')

-- The counters of a pool are in step.
pub record IsValid (pool : MemoryPool) : Type 0 where
  pub blocks_fit : pool.total_blocks * pool.block_size ≤ pool.pool_size
  pub counted : pool.free_blocks + pool.allocated_blocks ≡ pool.total_blocks

-- A block lies within the memory of the pool.
abbrev pub IsInside : MemoryPool → ℕ → Type 0
IsInside pool block = block + pool.block_size ≤ pool.pool_size

abbrev SameMemory : MemoryPool → MemoryPool → Type 0
SameMemory p q = (p.pool_size ≡ q.pool_size) × (p.block_size ≡ q.block_size)

product_le : (a n b size : ℕ) → n * b ≤ size → a < n → a * b + b ≤ size
product_le a n b size h l =
    let e : b * suc a ≤ b * n = mul-le-mul_left b (omega arith) in omega (arith, e, h)

alloc-IsInside :
    (pool : MemoryPool) (block : ℕ)
    → IsValid pool
    → (alloc pool).0 ≡ some block
    → IsInside pool block
unfolding alloc
alloc-IsInside pool block v e = ground (
  arith,
  product_le pool.allocated_blocks pool.total_blocks pool.block_size pool.pool_size v.blocks_fit,
)

alloc-IsValid :
    (pool : MemoryPool)
    → IsValid pool
    → let pool' = (alloc pool).1 in IsValid pool' × SameMemory pool' pool
unfolding alloc
alloc-IsValid pool v = (
  record { blocks_fit = ground (arith, v.blocks_fit); counted = ground (arith, v.counted) },
  (ground arith, ground arith),
)

free-IsValid :
    (pool : MemoryPool) (block : Option ℕ)
    → IsValid pool
    → let pool' = (free pool block).1 in IsValid pool' × SameMemory pool' pool
unfolding free
free-IsValid pool none v = (v, (refl, refl))
free-IsValid pool (some b) v = (
  record { blocks_fit = ground (arith, v.blocks_fit); counted = ground (arith, v.counted) },
  (ground arith, ground arith),
)

-- The pool that a call leaves is valid and has the same memory, and the blocks lie inside.
abbrev Keeps : MemoryPool → List ℕ → MemoryPool → Type 0
Keeps pool got pool' = IsValid pool' × (SameMemory pool' pool × All (IsInside pool) got)

call-Keeps :
    (c : Call) (pool : MemoryPool) → IsValid pool → Keeps pool (call c pool).0 (call c pool).1
unfolding call
call-Keeps alloc_call pool v = by_block (alloc pool).0 refl
  where
    by_block :
        (o : Option ℕ)
        → (alloc pool).0 ≡ o
        → Keeps pool (call alloc_call pool).0 (call alloc_call pool).1
    by_block none e =
        let (w, same) = alloc-IsValid pool v in
        subst (λ (r : List ℕ × MemoryPool). Keeps pool r.0 r.1)
          (λ i. elim (sym e i) [
            | none ↦ ([], (alloc pool).1)
            | some block ↦ (block ∷ [], (alloc pool).1)
          ])
          (w, (same, tt))
    by_block (some block) e =
        let (w, same) = alloc-IsValid pool v in
        subst (λ (r : List ℕ × MemoryPool). Keeps pool r.0 r.1)
          (λ i. elim (sym e i) [
            | none ↦ ([], (alloc pool).1)
            | some block ↦ (block ∷ [], (alloc pool).1)
          ])
          (w, (same, (alloc-IsInside pool block v e, tt)))
call-Keeps (free_call block) pool v = let (w, same) = free-IsValid pool block v in (w, (same, tt))

All-append : (P : ℕ → Type 0) (xs ys : List ℕ) → All P xs → All P ys → All P (xs ++ ys)
All-append P [] ys a b = b
All-append P (x ∷ xs) ys (p, a) b = (p, All-append P xs ys a b)

IsInside-same :
    (p q : MemoryPool) (got : List ℕ) → SameMemory q p → All (IsInside q) got → All (IsInside p) got
IsInside-same p q [] e a = tt
IsInside-same p q (x ∷ xs) e (i, a) = (ground (arith, e, i), IsInside-same p q xs e a)

run-Keeps :
    (calls : List Call) (pool : MemoryPool)
    → IsValid pool
    → Keeps pool (run calls pool).0 (run calls pool).1
unfolding run
run-Keeps [] pool v = (v, ((refl, refl), tt))
run-Keeps (c ∷ cs) pool v =
    let (w, (same, got)) = call-Keeps c pool v in
    let (w', (same', more)) = run-Keeps cs (call c pool).1 w in
    (
      w',
      (
        (same'.0 ∙ same.0, same'.1 ∙ same.1),
        All-append (IsInside pool) (call c pool).0 (run cs (call c pool).1).0 got
            (IsInside-same pool (call c pool).1 (run cs (call c pool).1).0 same more),
      ),
    )

-- In every history of calls on a valid pool, each block that is handed out lies within the memory
-- of the pool, and free and used blocks together stay all there are, whatever is given back.
pub run-IsValid :
    (calls : List Call) (pool : MemoryPool)
    → IsValid pool
    → IsValid (run calls pool).1 × All (IsInside pool) (run calls pool).0
run-IsValid calls pool v = let (w, (same, got)) = run-Keeps calls pool v in (w, got)

-- A fresh pool is valid.
pub init-IsValid :
    (pool_size block_size : ℕ)
    → 0 < pool_size
    → 0 < block_size
    → IsValid (init true true pool_size block_size cleared).1
unfolding init
init-IsValid pool_size block_size h b = record {
  blocks_fit = ground (arith, div-add-mod' pool_size block_size);
  counted = ground arith;
}

-- The pool does not keep track of its blocks: of two blocks in use the first is given back, and the
-- next call hands out the second again, which is still in use.
alloc_reuses :
    (pool : MemoryPool) (a b : ℕ)
    → (alloc pool).0 ≡ some a
    → (alloc (alloc pool).1).0 ≡ some b
    → (alloc (free (alloc (alloc pool).1).1 (some a)).1).0 ≡ some b
unfolding alloc free
alloc_reuses pool a b h k = ground arith
