-- ===== src/Sockaddr/Zones.antt =====
-- sockaddr.go: zoneCache, the interface indexes by name. Instants are counts of nanoseconds, and `none`
-- is the time of a cache that has never been read. What `z.interfaces()` and the second `z.now()` give, and
-- what other callers do to the cache between the two locks of one lookup, are arguments.
pub mod Laws
use go_sctp.Common.{
  ℕ, ◌+◌, ◌*◌, ◌==◌, ◌≡◌, ◌≤◌, ◌⊎◌, inl, inr, arith, refl, sym, ap, ◌∙◌, List, [], ◌∷◌, Bool, true,
  false, not, ◌&&◌, ◌||◌, Option, none, some, if◌then◌else◌, ltb, ltb→lt, ◌<◌, le→ltb, ℤ, if_cases,
}
use mathlib.Core.Path.{subst}

pub record Interface : Type 0 where
  pub name : List ℕ
  pub idx : ℤ

abbrev pub same_name : List ℕ → List ℕ → Bool
same_name [] [] = true
same_name [] (y ∷ ys) = false
same_name (x ∷ xs) [] = false
same_name (x ∷ xs) (y ∷ ys) = (x == y) && same_name xs ys

-- A map from names, the latest assignment first.
abbrev pub lookup : List ℕ → List Interface → Option ℤ
lookup n [] = none
lookup n (i ∷ is) = if same_name i.name n then some i.idx else lookup n is

pub record ZoneCache : Type 0 where
  pub by_name : List Interface
  pub fetched : Option ℕ

abbrev pub zone_cache_ttl : ℕ
zone_cache_ttl = 60 * 1000000000

abbrev pub digits : List ℕ → Bool
digits [] = true
digits (c ∷ cs) = not (ltb c 48 || ltb 57 c) && digits cs

-- isDecimal.
unfoldable pub is_decimal : List ℕ → Bool
is_decimal [] = false
is_decimal (c ∷ cs) = digits (c ∷ cs)

-- The assignments `byName[ifi.Name] = ifi.Index`, in order.
abbrev pub assign : List Interface → List Interface → List Interface
assign m [] = m
assign m (i ∷ is) = assign (i ∷ m) is

abbrev pub table_of : List Interface → List Interface
table_of t = assign [] t

abbrev pub after : Option ℕ → ℕ → Bool
after none now = false
after (some f) now = ltb now f

-- The body of `if ift, err := z.interfaces(); err == nil`.
abbrev pub read_table : Option (List Interface) → ℕ → ZoneCache → ZoneCache
read_table none end z = z
read_table (some t) end z = record { by_name = table_of t; fetched = some end }

abbrev pub found : List ℕ → ZoneCache → ZoneCache × Option ℤ
found n z = (z, lookup n z.by_name)

unfoldable pub refresh : Option (List Interface) → ℕ → ℕ → List ℕ → ZoneCache → ZoneCache × Option ℤ
refresh ift end now n z = if after z.fetched now then found n z else found n (read_table ift end z)

abbrev pub is_some : {A : Type 0} → Option A → Bool
is_some none = false
is_some (some a) = true

abbrev pub fresh : Option ℕ → ℕ → Bool
fresh none now = false
fresh (some f) now = ltb now (f + zone_cache_ttl)

-- Whether the cache answers as it is: `fresh && ok || fetched && !ok && isDecimal(name)`.
unfoldable pub answers : ℕ → List ℕ → ZoneCache → Bool
unfolding is_decimal
answers now n z =
    let ok = is_some (lookup n z.by_name) in
    (fresh z.fetched now && ok) || (is_some z.fetched && (not ok && is_decimal n))

-- `others` is what other callers do after this one has read the cache and before it locks it again.
unfoldable pub index :
    (ZoneCache → ZoneCache)
    → Option (List Interface)
    → ℕ
    → ℕ
    → List ℕ
    → ZoneCache
    → ZoneCache × Option ℤ
unfolding answers refresh
index others ift end now n z =
    if answers now n z then found n z else refresh ift end now n (others z)
