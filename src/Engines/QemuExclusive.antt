-- ===== src/Engines/QemuExclusive.antt =====
-- Theorems on the networks of engines/qemu/network/pool.go.
use taskcluster_worker.Prelude.{
  ℕ, zero, suc, ◌+◌, ◌≤◌, ◌<◌, ◌≡◌, ◌≢◌, ◌⊎◌, ◌↔◌, refl, ap, Bool, true, false, List, [], ◌∷◌,
  Option, none, some, arith, if◌then◌else◌, ◌==◌, length,
}
use taskcluster_worker.Engines.DockerNetworks.{
  network_at, handed, in_use, handed-clear, in_use-clear,
}
use taskcluster_worker.Engines.QemuNetworks.{
  Pool, all_idle, pool_of, first_idle, set_at, get_network, release, use_all, flag, used_count,
}

flag-set :
    (n i : ℕ) (b : Bool) (bs : List Bool)
    → i < length bs
    → flag n (set_at i b bs) ≡ (if n == i then (if b then 1 else 0) else flag n bs)
flag-set n i b [] h = absurd (omega arith)
flag-set zero zero b (c ∷ cs) h = ground arith
flag-set zero (suc i) b (c ∷ cs) h = ground arith
flag-set (suc n) zero b (c ∷ cs) h = ground arith
flag-set (suc n) (suc i) b (c ∷ cs) h = ground (arith, flag-set n i b cs)

used_count-set :
    (i : ℕ) (b : Bool) (bs : List Bool)
    → i < length bs
    → used_count (set_at i b bs) + flag i bs ≡ used_count bs + (if b then 1 else 0)
used_count-set i b [] h = absurd (omega arith)
used_count-set zero b (c ∷ cs) h = ground arith
used_count-set (suc i) b (c ∷ cs) h = ground (arith, used_count-set i b cs)

length-set : (i : ℕ) (b : Bool) (bs : List Bool) → length (set_at i b bs) ≡ length bs
length-set i b [] = refl
length-set zero b (c ∷ cs) = refl
length-set (suc i) b (c ∷ cs) = ground (arith, length-set i b cs)

first_idle-flag :
    (bs : List Bool) (i : ℕ) → first_idle bs ≡ some i → (i < length bs) × (flag i bs ≡ 0)
unfolding first_idle
first_idle-flag [] i h = absurd (ground arith)
first_idle-flag (b ∷ bs) zero h = ground arith
first_idle-flag (b ∷ bs) (suc i) h = ground (arith, first_idle-flag bs i)

first_idle-full :
    (bs : List Bool)
    → ((first_idle bs ≡ none) × (used_count bs ≡ length bs))
      ⊎ ((first_idle bs ≢ none) × (used_count bs < length bs))
unfolding first_idle
first_idle-full [] = ground arith
first_idle-full (b ∷ bs) = ground (arith, first_idle-full bs)

flag-length : (n : ℕ) (bs : List Bool) → 0 < flag n bs → n < length bs
flag-length n [] h = absurd (omega arith)
flag-length zero (b ∷ bs) h = ground arith
flag-length (suc n) (b ∷ bs) h = ground (arith, flag-length n bs)

flag-one : (n : ℕ) (bs : List Bool) → flag n bs ≤ 1
flag-one n [] = ground arith
flag-one zero (b ∷ bs) = ground arith
flag-one (suc n) (b ∷ bs) = flag-one n bs

handed-at : (w i : ℕ) (hs : List (Option ℕ)) → network_at w hs ≡ some i → 0 < handed i hs
handed-at w i hs h = ground (arith, handed-clear i i w hs h)

record Exclusive (size : ℕ) (p : Pool) : Type 0 where
  one : (n : ℕ) → handed n p.wrappers ≡ flag n p.used
  all : in_use p.wrappers ≡ used_count p.used
  kept : length p.used ≡ size

get-Exclusive : (size : ℕ) (p : Pool) → Exclusive size p → Exclusive size (get_network p).0
unfolding get_network
get-Exclusive size p v = got (first_idle p.used) refl
  where
    got : (o : Option ℕ) → first_idle p.used ≡ o → Exclusive size (get_network p).0
    got none e = ground (arith, v, e)
    got (some i) e =
        let f : (i < length p.used) × (flag i p.used ≡ 0) = first_idle-flag p.used i e in
        record {
          one = λ n. ground (arith, e, f, v.one n, v.one i, flag-set n i true p.used);
          all = ground (arith, e, f, v.all, used_count-set i true p.used);
          kept = ground (arith, e, v.kept, length-set i true p.used);
        }

release-Exclusive : (w size : ℕ) (p : Pool) → Exclusive size p → Exclusive size (release w p)
unfolding release
release-Exclusive w size p v = gone (network_at w p.wrappers) refl
  where
    gone : (o : Option ℕ) → network_at w p.wrappers ≡ o → Exclusive size (release w p)
    gone none e = ground (arith, v, e)
    gone (some i) e =
        let h : 0 < flag i p.used = ground (arith, handed-at w i p.wrappers e, v.one i) in
        let l : i < length p.used = flag-length i p.used h in
        record {
          one = λ n. ground (
            arith,
            e,
            l,
            h,
            v.one n,
            v.one i,
            flag-set n i false p.used,
            handed-clear n i w p.wrappers e,
            handed-clear i i w p.wrappers e,
            flag-one i p.used,
          );
          all = ground (
            arith,
            e,
            l,
            h,
            v.all,
            used_count-set i false p.used,
            in_use-clear i w p.wrappers e,
            flag-one i p.used,
          );
          kept = ground (arith, e, v.kept, length-set i false p.used);
        }

use_all-Exclusive :
    (us : List (Option ℕ)) (size : ℕ) (p : Pool) → Exclusive size p → Exclusive size (use_all us p)
unfolding use_all
use_all-Exclusive [] size p v = v
use_all-Exclusive (none ∷ us) size p v =
    use_all-Exclusive us size (get_network p).0 (get-Exclusive size p v)
use_all-Exclusive (some w ∷ us) size p v =
    use_all-Exclusive us size (release w p) (release-Exclusive w size p v)

all_idle-flag : (n size : ℕ) → flag n (all_idle size) ≡ 0
all_idle-flag n zero = refl
all_idle-flag zero (suc size) = refl
all_idle-flag (suc n) (suc size) = all_idle-flag n size

all_idle-count : (size : ℕ) → used_count (all_idle size) ≡ 0
all_idle-count zero = refl
all_idle-count (suc size) = all_idle-count size

all_idle-length : (size : ℕ) → length (all_idle size) ≡ size
all_idle-length zero = refl
all_idle-length (suc size) = ap suc (all_idle-length size)

idle-Exclusive : (size : ℕ) → Exclusive size (pool_of size)
idle-Exclusive size = record {
  one = λ n. ground (arith, all_idle-flag n size);
  all = ground (arith, all_idle-count size);
  kept = all_idle-length size;
}

-- However networks of a pool are got and released, each entry is in one wrapper that is not released
-- if it is in use, and else in none, so no two of them share a network. `Network` returns
-- ErrAllNetworksInUse exactly where all of them are out.
network_exclusive :
    (size n : ℕ) (us : List (Option ℕ))
    → let p = use_all us (pool_of size) in
      (handed n p.wrappers ≡ flag n p.used)
      × (handed n p.wrappers ≤ 1)
      × (((get_network p).1 ≡ false) ↔ (in_use p.wrappers ≡ size))
unfolding get_network
network_exclusive size n us =
    told (use_all us (pool_of size))
      (use_all-Exclusive us size (pool_of size) (idle-Exclusive size))
  where
    told :
        (p : Pool)
        → Exclusive size p
        → (handed n p.wrappers ≡ flag n p.used)
          × (handed n p.wrappers ≤ 1)
          × (((get_network p).1 ≡ false) ↔ (in_use p.wrappers ≡ size))
    told p v = (
      v.one n,
      ground (arith, v.one n, flag-one n p.used),
      (
        λ h. ground (arith, v.all, v.kept, first_idle-full p.used),
        λ h. ground (arith, v.all, v.kept, first_idle-full p.used),
      ),
    )
