-- ===== src/Endpoint.antt =====
-- endpoint.go: the association ids of a one-to-many socket. An AssocID, an int32, is the uint32 with
-- its bits; `slices.Sort` is an insertion sort.
pub mod Laws
pub mod Receive
mod Examples
use go_sctp.Common.{
  ℕ, zero, suc, ◌+◌, ◌*◌, ◌^◌, List, [], ◌∷◌, Bool, true, false, not, ◌&&◌, ◌||◌, ltb, leb, ◌==◌,
  if◌then◌else◌, length, Outcome, ok, err, ◌>>=◌, ◌>>◌, refuse,
}
use go_sctp.Bytes.{Endian, uint32}

abbrev pub assoc_scope_all : ℕ
assoc_scope_all = 2

abbrev pub assoc_id_list_limit : ℕ
assoc_id_list_limit = 1048576

pub data AssocIdsError : Type 0 where
  invalid_assoc_list assoc_list_too_large : AssocIdsError

-- Above 2 and not negative as an int32.
unfoldable pub real_assoc_id : ℕ → Bool
real_assoc_id id = ltb assoc_scope_all id && ltb id (2 ^ 31)

pub data ScopeError : Type 0 where
  scope_future scope_current scope_all negative_id : ScopeError

unfoldable pub assoc_id_arg : ℕ → Outcome ScopeError Unit
unfolding real_assoc_id
assoc_id_arg id =
    if real_assoc_id id
    then ok tt
    else if id == 0
    then err scope_future
    else if id == 1
    then err scope_current
    else if id == 2
    then err scope_all
    else err negative_id

insert : ℕ → List ℕ → List ℕ
insert x [] = x ∷ []
insert x (y ∷ ys) = let rest = insert x ys in if leb x y then x ∷ y ∷ ys else y ∷ rest

sort : List ℕ → List ℕ
unfolding insert
sort [] = []
sort (x ∷ xs) = insert x (sort xs)

-- Whether two neighbours are equal.
has_twins : List ℕ → Bool
has_twins [] = false
has_twins (x ∷ []) = false
has_twins (x ∷ y ∷ ys) = x == y || has_twins (y ∷ ys)

-- `n` ids from position `at` on.
read_ids : Endian → List ℕ → ℕ → ℕ → Outcome AssocIdsError (List ℕ)
read_ids e b at zero = ok []
read_ids e b at (suc n) = do
  id ← uint32 e b at
  refuse (not (real_assoc_id id)) invalid_assoc_list
  rest ← read_ids e b (at + 4) n
  ok (id ∷ rest)

unfoldable pub decode_assoc_ids : Endian → List ℕ → Outcome AssocIdsError (List ℕ)
unfolding sort has_twins read_ids
decode_assoc_ids e b = do
  refuse (ltb (length b) 4) invalid_assoc_list
  count ← uint32 e b 0
  refuse (ltb assoc_id_list_limit count) assoc_list_too_large
  refuse (not (length b == 4 + count * 4)) invalid_assoc_list
  ids ← read_ids e b 4 count
  refuse (has_twins (sort ids)) invalid_assoc_list
  ok (sort ids)
