-- ===== src/Dict.antt =====
-- The key-value dictionary of src/reprompi_bench/utils/keyvalue_store.c: a table of `size` bins,
-- each a singly linked list of entries. Pointers into a bin are the split of its list into the
-- entries already passed and those from the pointer on.
pub mod Hash
pub mod Chain
pub mod Table
pub mod Updates
pub mod Removal
pub mod Keys
mod Examples
use reprompi_dev.Prelude.{
  ℕ, zero, suc, ◌+◌, Bool, true, false, Option, none, some, List, [], ◌∷◌, ◌++◌, get_or, set,
  replicate, ltb, leb, ◌==◌, if◌then◌else◌,
}
use reprompi_dev.Prelude.Int.{ℤ, pos, negsuc, ltb_ℤ, pos_part}
use reprompi_dev.Prelude.Text.{Str, same}
use Hash.{hash_key}

-- `struct entry_s`; its `next` is the list that the entry stands in.
pub record Entry : Type 0 where
  pub key : Str
  pub value : Str

abbrev pub Chain : Type 0
Chain = List Entry

-- `struct hashtable_s`; `table` is the array of bin heads.
pub record Dictionary : Type 0 where
  pub size : ℕ
  pub table : List Chain

-- `reprompib_init_dictionary`; `alloc` says whether `calloc` succeeds. The old struct is kept on
-- the two error returns.
unfoldable pub init_dictionary : Bool → Dictionary → ℤ → ℕ × Dictionary
init_dictionary alloc old size =
    if ltb_ℤ size (pos 1)
    then (1, old)
    else if alloc
    then (0, record { size = pos_part size; table = replicate (pos_part size) [] })
    else (1, old)

-- `ht_hash`; `none` is the return of -1.
unfoldable pub ht_hash : Option Dictionary → Str → Option ℕ
ht_hash none key = none
ht_hash (some d) key = if ltb d.size 1 then none else some (hash_key key d.size)

-- `ht_newpair`; `alloc` says whether `malloc` succeeds.
unfoldable pub ht_newpair : Bool → Str → Str → Option Entry
ht_newpair alloc key value = if alloc then some (record { key = key; value = value }) else none

-- The loops `while (next != NULL && strcmp(next->key, key) != 0)` of the add, get and remove
-- functions: the entries passed, of which `last` is the last one, and the rest from `next` on.
unfoldable pub walk : Str → Chain → Chain × Chain
walk key [] = ([], [])
walk key (e ∷ c) =
    let (seen, next) = walk key c in if same e.key key then ([], e ∷ c) else (e ∷ seen, next)

-- The three cases that link a new entry in: at the head of the bin, at its end, in its middle.
unfoldable pub link : Entry → Chain → Chain → Chain
link new [] next = new ∷ next
link new (e ∷ seen) [] = (e ∷ seen) ++ (new ∷ [])
link new (e ∷ seen) (n ∷ next) = (e ∷ seen) ++ (new ∷ n ∷ next)

-- The end of the add function, where no entry has the key.
unfoldable pub grow : Option Entry → Chain → Chain → ℕ × Chain
grow none seen next = (1, seen ++ next)
grow (some new) seen next = (0, link new seen next)

-- What the add function does once its loop has stopped at `next`.
unfoldable pub place : Bool → Str → Str → Chain → Chain → ℕ × Chain
unfolding grow ht_newpair
place alloc key value seen [] = grow (ht_newpair alloc key value) seen []
place alloc key value seen (e ∷ next) =
    if same e.key key
    then (0, seen ++ (record e { value = value } ∷ next))
    else grow (ht_newpair alloc key value) seen (e ∷ next)

unfoldable pub add_to_chain : Bool → Str → Str → Chain → ℕ × Chain
add_to_chain alloc key value c = let (seen, next) = walk key c in place alloc key value seen next

-- `reprompib_add_element_to_dict`; a NULL argument is `none`.
unfoldable pub add_element : Bool → Dictionary → Option Str → Option Str → ℕ × Dictionary
add_element alloc d none value = (1, d)
add_element alloc d (some key) none = (1, d)
add_element alloc d (some key) (some value) = elim (ht_hash (some d) key) [
  | none ↦ (1, d)
  | some bin ↦
      let (ret, c) = add_to_chain alloc key value (get_or d.table bin []) in
      (ret, record d { table = set d.table bin c })
]

-- The test after the loop of the get function.
unfoldable pub found_value : Str → Chain → Option Str
found_value key [] = none
found_value key (e ∷ next) = if same key e.key then some e.value else none

-- `reprompib_get_value_from_dict`; `out` is what `*value` holds at the call. Without a bin the
-- function returns and leaves it alone.
unfoldable pub get_value : Dictionary → Option Str → Option Str → ℕ × Option Str
get_value d none out = (1, none)
get_value d (some key) out = elim (ht_hash (some d) key) [
  | none ↦ (1, out)
  | some bin ↦ elim (found_value key (walk key (get_or d.table bin [])).1) [
    | none ↦ (1, none)
    | some value ↦ (0, some value)
  ]
]

-- The unlinking of the remove function: `none` if the loop found no entry. An entry at the head
-- of its bin is removed by `hashtable->table[bin] = NULL`.
unfoldable pub unlink : Str → Chain → Chain → Option Chain
unlink key seen [] = none
unlink key [] (e ∷ next) = if same key e.key then some [] else none
unlink key (s ∷ seen) (e ∷ next) = if same key e.key then some ((s ∷ seen) ++ next) else none

-- `reprompib_remove_element_from_dict`
unfoldable pub remove_element : Dictionary → Option Str → ℕ × Dictionary
remove_element d none = (1, d)
remove_element d (some key) = elim (ht_hash (some d) key) [
  | none ↦ (1, d)
  | some bin ↦
      let c = get_or d.table bin [] in
      elim (unlink key (walk key c).0 (walk key c).1) [
        | none ↦ (1, d)
        | some c' ↦ (0, record d { table = set d.table bin c' })
      ]
]

-- The inner loop of `reprompib_dict_get_nkeys`.
unfoldable pub count_chain : ℕ → Chain → ℕ
count_chain nkeys [] = nkeys
count_chain nkeys (e ∷ c) = count_chain (nkeys + 1) c

unfoldable pub count_table : ℕ → List Chain → ℕ
count_table nkeys [] = nkeys
count_table nkeys (c ∷ cs) = count_table (count_chain nkeys c) cs

-- `reprompib_dict_get_nkeys`
unfoldable pub get_nkeys : Dictionary → ℕ
get_nkeys d = count_table 0 d.table

unfoldable pub chain_keys : List Str → Chain → List Str
chain_keys keys [] = keys
chain_keys keys (e ∷ c) = chain_keys (keys ++ (e.key ∷ [])) c

unfoldable pub table_keys : List Str → List Chain → List Str
table_keys keys [] = keys
table_keys keys (c ∷ cs) = table_keys (chain_keys keys c) cs

-- `reprompib_get_keys_from_dict`: the return value, `*nkeys` and `*keys` (`none` for NULL).
unfoldable pub get_keys : Bool → Dictionary → ℕ × ℕ × Option (List Str)
get_keys alloc d =
    let nkeys = get_nkeys d in
    if ltb 0 nkeys
    then (if alloc then (0, nkeys, some (table_keys [] d.table)) else (1, nkeys, none))
    else (0, nkeys, none)

-- `reprompib_dict_is_empty`
unfoldable pub is_empty : Dictionary → Bool
is_empty d = get_nkeys d == 0

-- `reprompib_dict_has_key`; `value` is uninitialised at the call, so any `out` is possible.
unfoldable pub has_key : Dictionary → Option Str → Option Str → Bool
has_key d key out = (get_value d key out).0 == 0
