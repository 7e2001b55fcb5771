-- ===== src/Client/Discovery/Lookups.antt =====
-- The list of lookups of a refresh (r_dns_lookup_link, r_dns_lookup_unlink).
use rl_c_client.Prelude.{
  ◌==◌, if◌then◌else◌, ℕ, ◌+◌, ◌≤◌, ◌<◌, ◌≡◌, refl, none, some, List, [], ◌∷◌, arith,
}
use rl_c_client.Client.Machine.{Lookup}
use rl_c_client.Client.Discovery.{find_lookup, store_lookup, dns_lookup_unlink}

-- The newest lookup is in front, and addresses are numbers of allocations, below `n`.
abbrev pub Descends : ℕ → List Lookup → Type 0
Descends n [] = Unit
Descends n (l ∷ ls) = (l.id < n) × Descends l.id ls

-- The lookups that have not been completed.
abbrev pub open_count : List Lookup → ℕ
open_count [] = 0
open_count (l ∷ ls) = (if l.completed then 0 else 1) + open_count ls

pub Descends-mono : (m n : ℕ) (ls : List Lookup) → m ≤ n → Descends m ls → Descends n ls
Descends-mono m n [] le h = tt
Descends-mono m n (l ∷ ls) le (below, h) = (omega arith, h)

find_above : (k n : ℕ) (ls : List Lookup) → Descends n ls → n ≤ k → find_lookup k ls ≡ none
unfolding find_lookup
find_above k n [] h le = refl
find_above k n (l ∷ ls) (below, h) le = ground (arith, find_above k l.id ls h (omega arith))

pub find_lookup-id : (k : ℕ) (ls : List Lookup) (l : Lookup) → find_lookup k ls ≡ some l → l.id ≡ k
unfolding find_lookup
find_lookup-id k [] l e = cc
find_lookup-id k (x ∷ ls) l e = ground (arith, find_lookup-id k ls l)

pub find_lookup-below :
    (k n : ℕ) (ls : List Lookup) (l : Lookup) → Descends n ls → find_lookup k ls ≡ some l → k < n
unfolding find_lookup
find_lookup-below k n [] l h e = absurd cc
find_lookup-below k n (x ∷ ls) l (below, h) e = ground (arith, find_lookup-below k x.id ls l h)

pub find_lookup-store :
    (k : ℕ) (new : Lookup) (ls : List Lookup)
    → find_lookup k (store_lookup new ls) ≡ (
        if k == new.id
        then (elim (find_lookup k ls) [ none ↦ none | some l ↦ some new ])
        else find_lookup k ls)
unfolding find_lookup store_lookup
find_lookup-store k new [] = ground arith
find_lookup-store k new (l ∷ ls) = ground (arith, find_lookup-store k new ls)

pub find_lookup-unlink :
    (k id n : ℕ) (ls : List Lookup)
    → Descends n ls
    → find_lookup k (dns_lookup_unlink id ls) ≡ (if k == id then none else find_lookup k ls)
unfolding find_lookup dns_lookup_unlink
find_lookup-unlink k id n [] h = ground arith
find_lookup-unlink k id n (l ∷ ls) (below, h) =
    ground (arith, find_lookup-unlink k id l.id ls h, find_above k l.id ls h)

pub Descends-store :
    (n : ℕ) (new : Lookup) (ls : List Lookup) → Descends n ls → Descends n (store_lookup new ls)
unfolding store_lookup
Descends-store n new [] h = tt
Descends-store n new (l ∷ ls) (below, h) = ground (arith, Descends-store l.id new ls h)

pub Descends-unlink :
    (id n : ℕ) (ls : List Lookup) → Descends n ls → Descends n (dns_lookup_unlink id ls)
unfolding dns_lookup_unlink
Descends-unlink id n [] h = tt
Descends-unlink id n (l ∷ ls) (below, h) =
    ground (arith, Descends-unlink id l.id ls h, Descends-mono l.id n ls (omega arith) h)

pub open_count-store :
    (new old : Lookup) (ls : List Lookup)
    → find_lookup new.id ls ≡ some old
    → open_count (store_lookup new ls) + (if old.completed then 0 else 1)
      ≡ open_count ls + (if new.completed then 0 else 1)
unfolding find_lookup store_lookup
open_count-store new old [] e = absurd cc
open_count-store new old (l ∷ ls) e = ground (arith, open_count-store new old ls)

pub open_count-unlink :
    (id : ℕ) (old : Lookup) (ls : List Lookup)
    → find_lookup id ls ≡ some old
    → open_count (dns_lookup_unlink id ls) + (if old.completed then 0 else 1) ≡ open_count ls
unfolding find_lookup dns_lookup_unlink
open_count-unlink id old [] e = absurd cc
open_count-unlink id old (l ∷ ls) e = ground (arith, open_count-unlink id old ls)
