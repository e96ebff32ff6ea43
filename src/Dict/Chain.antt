-- ===== src/Dict/Chain.antt =====
-- One bin of the dictionary: what the loops of keyvalue_store.c compute, by plain recursion.
use reprompi_dev.Prelude.{
  ℕ, ◌+◌, ◌≤◌, ◌≡◌, refl, Bool, true, false, Option, none, some, [], ◌∷◌, ◌++◌, arith,
  if◌then◌else◌, Bool-cases, inl, inr,
}
use reprompi_dev.Prelude.Text.{Str, same, same_iff}
use reprompi_dev.Dict.{Entry, Chain, walk, link, place, add_to_chain, found_value, unlink}

unfoldable pub lookup : Str → Chain → Option Str
lookup q [] = none
lookup q (e ∷ c) = if same q e.key then some e.value else lookup q c

-- how often `q` is the key of an entry
unfoldable pub count : Str → Chain → ℕ
count q [] = 0
count q (e ∷ c) = (if same q e.key then 1 else 0) + count q c

unfoldable pub assign : Str → Str → Chain → Chain
assign key value [] = record { key = key; value = value } ∷ []
assign key value (e ∷ c) =
    if same e.key key then record e { value = value } ∷ c else e ∷ assign key value c

-- the list without the first entry of that key
unfoldable pub without : Str → Chain → Chain
without key [] = []
without key (e ∷ c) = if same e.key key then c else e ∷ without key c

pub link_lem : (new : Entry) (seen next : Chain) → link new seen next ≡ seen ++ (new ∷ next)
unfolding link
link_lem new [] next = refl
link_lem new (e ∷ seen) [] = refl
link_lem new (e ∷ seen) (n ∷ next) = refl

place-cons :
    (alloc : Bool) (key value : Str) (e : Entry) (seen next : Chain)
    → place alloc key value (e ∷ seen) next
      ≡ ((place alloc key value seen next).0, e ∷ (place alloc key value seen next).1)
unfolding place
place-cons true key value e seen [] = simp link_lem
place-cons true key value e seen (n ∷ next) = simp link_lem (ground arith)
place-cons false key value e seen [] = refl
place-cons false key value e seen (n ∷ next) = ground arith

-- The loop passes an entry of another key.
add_to_chain-cons :
    (alloc : Bool) (key value : Str) (e : Entry) (c : Chain)
    → same e.key key ≡ false
    → add_to_chain alloc key value (e ∷ c)
      ≡ ((add_to_chain alloc key value c).0, e ∷ (add_to_chain alloc key value c).1)
unfolding add_to_chain walk
add_to_chain-cons alloc key value e c h =
    rw h (place-cons alloc key value e (walk key c).0 (walk key c).1)

add_to_chain_head :
    (alloc : Bool) (key value : Str) (e : Entry) (c : Chain)
    → same e.key key ≡ true
    → add_to_chain alloc key value (e ∷ c) ≡ (0, record e { value = value } ∷ c)
unfolding add_to_chain walk place
add_to_chain_head alloc key value e c h = ground arith

-- With memory, the add function assigns to the key.
pub add_to_chain-eq-assign :
    (key value : Str) (c : Chain) → add_to_chain true key value c ≡ (0, assign key value c)
unfolding assign
add_to_chain-eq-assign key value [] = unfold add_to_chain walk place link in refl
add_to_chain-eq-assign key value (e ∷ c) = elim (Bool-cases (same e.key key)) [
  | inl h ↦ rw (add_to_chain_head true key value e c h, h)
  | inr h ↦ rw (add_to_chain-cons true key value e c h, add_to_chain-eq-assign key value c, h)
]

pub same_comm : (a b : Str) → same a b ≡ same b a
same_comm a b = ground (arith, same_iff a b, same_iff b a)

-- Without memory for a new entry, the add function either assigns to an existing one or fails and
-- leaves the bin as it was.
pub add_to_chain-no_memory :
    (key value : Str) (c : Chain)
    → add_to_chain false key value c
      ≡ elim (lookup key c) [ none ↦ (1, c) | some _ ↦ (0, assign key value c) ]
unfolding assign lookup
add_to_chain-no_memory key value [] = unfold add_to_chain walk place in refl
add_to_chain-no_memory key value (e ∷ c) = elim (Bool-cases (same e.key key)) [
  | inl h ↦ ground (arith, add_to_chain_head false key value e c h, same_comm key e.key)
  | inr h ↦ ground (
    arith,
    add_to_chain-cons false key value e c h,
    add_to_chain-no_memory key value c,
    same_comm key e.key,
  )
]

-- The get function's loop and test find the first entry of the key.
pub found_value-walk : (key : Str) (c : Chain) → found_value key (walk key c).1 ≡ lookup key c
unfolding found_value walk lookup
found_value-walk key [] = refl
found_value-walk key (e ∷ c) =
    ground (arith, found_value-walk key c, same_iff key e.key, same_iff e.key key)

unlink-cons :
    (key : Str) (s e : Entry) (seen next : Chain)
    → unlink key (s ∷ e ∷ seen) next
      ≡ elim (unlink key (e ∷ seen) next) [ none ↦ none | some c ↦ some (s ∷ c) ]
unfolding unlink
unlink-cons key s e seen [] = refl
unlink-cons key s e seen (n ∷ next) = ground arith

-- An entry that is not at the head of its bin is unlinked, and nothing else.
pub unlink-walk :
    (key : Str) (s : Entry) (c : Chain)
    → unlink key (s ∷ (walk key c).0) (walk key c).1
      ≡ elim (lookup key c) [ none ↦ none | some _ ↦ some (s ∷ without key c) ]
unfolding walk lookup without
unlink-walk key s [] = unfold unlink in refl
unlink-walk key s (e ∷ c) = elim (Bool-cases (same e.key key)) [
  | inl h ↦ unfold unlink in ground (arith, same_comm key e.key)
  | inr h ↦ ground (
    arith,
    unlink-cons key s e (walk key c).0 (walk key c).1,
    unlink-walk key e c,
    same_comm key e.key,
  )
]

-- The head of a bin is unlinked with all the entries behind it.
pub unlink-walk_head :
    (key : Str) (e : Entry) (c : Chain)
    → same key e.key ≡ true
    → unlink key (walk key (e ∷ c)).0 (walk key (e ∷ c)).1 ≡ some []
unfolding walk unlink
unlink-walk_head key e c h = rw (same_comm e.key key, h) (ground arith)

-- What a bin is after a removal that found its key.
unfoldable pub removed : Str → Chain → Chain
removed key [] = []
removed key (e ∷ c) = if same key e.key then [] else e ∷ without key c

pub unlink-eq-removed :
    (key : Str) (c : Chain)
    → unlink key (walk key c).0 (walk key c).1
      ≡ elim (lookup key c) [ none ↦ none | some _ ↦ some (removed key c) ]
unfolding removed
unlink-eq-removed key [] = unfold walk unlink lookup in refl
unlink-eq-removed key (e ∷ c) = elim (Bool-cases (same key e.key)) [
  | inl h ↦ unfold lookup in ground (arith, unlink-walk_head key e c h)
  | inr h ↦ unfold lookup walk in ground (arith, unlink-walk key e c, same_comm key e.key)
]

pub count-eq-zero : (q : Str) (c : Chain) → lookup q c ≡ none → count q c ≡ 0
unfolding lookup count
count-eq-zero q [] h = refl
count-eq-zero q (e ∷ c) h = ground (arith, count-eq-zero q c)

pub lookup-eq-none : (q : Str) (c : Chain) → count q c ≡ 0 → lookup q c ≡ none
unfolding lookup count
lookup-eq-none q [] h = refl
lookup-eq-none q (e ∷ c) h = ground (arith, lookup-eq-none q c)

module _ (k q : Str) where
  pub lookup-assign :
      (v : Str) (c : Chain) → lookup q (assign k v c) ≡ (if same k q then some v else lookup q c)
  unfolding lookup assign
  lookup-assign v [] = ground (arith, same_comm k q)
  lookup-assign v (e ∷ c) =
      ground (arith, lookup-assign v c, same_iff e.key k, same_iff q e.key, same_iff k q)

  pub count-assign :
      (v : Str) (c : Chain)
      → count q (assign k v c)
        ≡ count q c + elim (lookup k c) [ none ↦ if same k q then 1 else 0 | some _ ↦ 0 ]
  unfolding lookup count assign
  count-assign v [] = ground (arith, same_comm k q)
  count-assign v (e ∷ c) = ground (arith, count-assign v c, same_comm e.key k)

  pub lookup-without :
      (c : Chain) → count q c ≤ 1 → lookup q (without k c) ≡ (if same k q then none else lookup q c)
  unfolding lookup count without
  lookup-without [] h = ground arith
  lookup-without (e ∷ c) h = ground (
    arith,
    lookup-without c,
    lookup-eq-none q c,
    same_iff e.key k,
    same_iff q e.key,
    same_iff k q,
  )

  pub count-without-le : (c : Chain) → count q (without k c) ≤ count q c
  unfolding count without
  count-without-le [] = omega arith
  count-without-le (e ∷ c) = ground (arith, count-without-le c)

  pub count-removed-le : (c : Chain) → count q (removed k c) ≤ count q c
  unfolding count removed
  count-removed-le [] = omega arith
  count-removed-le (e ∷ c) = ground (arith, count-without-le c)
