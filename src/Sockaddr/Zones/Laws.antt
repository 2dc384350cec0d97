-- ===== src/Sockaddr/Zones/Laws.antt =====
-- zoneCache against the interfaces of the host.
use go_sctp.Common.{
  ℕ, ◌+◌, ◌≡◌, ◌≤◌, ◌⊎◌, refl, ◌∙◌, List, [], ◌∷◌, Bool, true, false, Option, none, some,
  if◌then◌else◌, ltb, ◌<◌, ℤ, if_cases,
}
use go_sctp.Sockaddr.Zones.{
  Interface, same_name, lookup, ZoneCache, zone_cache_ttl, assign, table_of, found, refresh,
  answers, index,
}

abbrev pub or_else : Option ℤ → Option ℤ → Option ℤ
or_else (some k) o = some k
or_else none o = o

-- The index of the last interface of the name among the host's interfaces.
abbrev pub host_index : List ℕ → List Interface → Option ℤ
host_index n [] = none
host_index n (i ∷ is) = or_else (host_index n is) (if same_name i.name n then some i.idx else none)

or_else-none : (o : Option ℤ) → or_else o none ≡ o
or_else-none none = refl
or_else-none (some k) = refl

or_else-if :
    (o m : Option ℤ) (k : ℤ) (b : Bool)
    → or_else o (if b then some k else m) ≡ or_else (or_else o (if b then some k else none)) m
or_else-if (some x) m k b = refl
or_else-if none m k true = refl
or_else-if none m k false = refl

lookup-assign :
    (n : List ℕ) (m t : List Interface)
    → lookup n (assign m t) ≡ or_else (host_index n t) (lookup n m)
lookup-assign n m [] = refl
lookup-assign n m (i ∷ is) =
    lookup-assign n (i ∷ m) is
    ∙ or_else-if (host_index n is) (lookup n m) i.idx (same_name i.name n)

pub lookup-table_of : (n : List ℕ) (t : List Interface) → lookup n (table_of t) ≡ host_index n t
lookup-table_of n t = lookup-assign n [] t ∙ or_else-none (host_index n t)

-- A cache that has not been read, or that has the indexes of the interfaces `t`.
abbrev pub HoldsAt : List Interface → List Interface → Option ℕ → Type 0
HoldsAt t m none = m ≡ []
HoldsAt t m (some f) = (n : List ℕ) → lookup n m ≡ host_index n t

abbrev pub Holds : List Interface → ZoneCache → Type 0
Holds t z = HoldsAt t z.by_name z.fetched

-- A lookup that gives the index of the host, after which the cache holds the interfaces.
abbrev pub Finds : List Interface → List ℕ → ZoneCache × Option ℤ → Type 0
Finds t n r = (r.1 ≡ host_index n t) × Holds t r.0

found-Finds :
    (t : List Interface) (n : List ℕ) (m : List Interface) (f : ℕ)
    → HoldsAt t m (some f)
    → Finds t n (found n (record { by_name = m; fetched = some f }))
found-Finds t n m f h = (h n, h)

refresh-Finds :
    (t : List Interface) (end now : ℕ) (n : List ℕ) (m : List Interface) (f : Option ℕ)
    → HoldsAt t m f
    → Finds t n (refresh (some t) end now n (record { by_name = m; fetched = f }))
unfolding refresh
refresh-Finds t end now n m none h = found-Finds t n (table_of t) end (λ k. lookup-table_of k t)
refresh-Finds t end now n m (some f) h =
    if_cases (Finds t n) (ltb now f) (λ _. found-Finds t n m f h)
      (λ _. found-Finds t n (table_of t) end (λ k. lookup-table_of k t))

module _ (t : List Interface) (others : ZoneCache → ZoneCache)
    (kept : (z : ZoneCache) → Holds t z → Holds t (others z)) (end now : ℕ) (n : List ℕ) where
  refreshed : (z : ZoneCache) → Holds t z → Finds t n (refresh (some t) end now n (others z))
  refreshed z h = refresh-Finds t end now n (others z).by_name (others z).fetched (kept z h)

  indexed :
      (m : List Interface) (f : Option ℕ)
      → HoldsAt t m f
      → Finds t n (index others (some t) end now n (record { by_name = m; fetched = f }))
  unfolding index
  indexed m none h = refreshed (record { by_name = m; fetched = none }) h
  indexed m (some f) h =
      if_cases (Finds t n) (answers now n (record { by_name = m; fetched = some f }))
        (λ _. found-Finds t n m f h) (λ _. refreshed (record { by_name = m; fetched = some f }) h)

-- While the host has the interfaces `t` and they can be read, a cache that is empty or has their indexes, and
-- that other callers keep so, gives every name the index of the host's interface of the name, the last if
-- there are several, and stays so: at any time, fresh or not, for any name, decimal or not, and after a read by
-- another caller.
pub index-lookup :
    (t : List Interface) (others : ZoneCache → ZoneCache)
    → ((z : ZoneCache) → Holds t z → Holds t (others z))
    → (end now : ℕ) (n : List ℕ) (z : ZoneCache) → Holds t z
    → ((index others (some t) end now n z).1 ≡ host_index n t)
      × Holds t (index others (some t) end now n z).0
index-lookup t others kept end now n z h = indexed t others kept end now n z.by_name z.fetched h

-- The cache has no such name, or was read long ago.
abbrev pub IsStale : ℕ → List ℕ → ZoneCache → Type 0
IsStale now n z =
    (lookup n z.by_name ≡ none) ⊎ ((f : ℕ) × ((z.fetched ≡ some f) × (f + zone_cache_ttl ≤ now)))

-- What other callers read into the cache after `now` is the host's interfaces.
abbrev pub ReadsHost : List Interface → ℕ → ZoneCache → Type 0
ReadsHost t now z =
    (f : ℕ) → z.fetched ≡ some f → now < f → (n : List ℕ) → lookup n z.by_name ≡ host_index n t
