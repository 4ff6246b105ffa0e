-- ===== src/Gc/Failing.antt =====
-- What CollectAll leaves when a resource cannot be disposed of.
use mathlib.Core.List.{append_assoc, append-nil}
use mathlib.Core.Path.{ap₂}
use taskcluster_worker.Prelude.{
  ℕ, suc, ◌+◌, ◌≡◌, ◌≢◌, refl, sym, ap, ◌∙◌, List, [], ◌∷◌, ◌++◌, Option, none, some, arith, All,
  drop, length, length-append,
}
use taskcluster_worker.Errors.{Err, disposable_in_use}
use taskcluster_worker.Gc.Collector.{
  Resource, Collector, completed, panicked, give_up, collect_all_from, collect_all,
}

drop-append : (pre rest : List Resource) → drop (length pre) (pre ++ rest) ≡ rest
drop-append [] rest = refl
drop-append (r ∷ pre) rest = drop-append pre rest

collect_disposed :
    (all : List Resource) (i : ℕ) (gone pre rest : List Resource)
    → All (λ r. r.disposal ≡ none) pre
    → collect_all_from all [] i gone (pre ++ rest)
      ≡ collect_all_from all [] (length pre + i) (gone ++ pre) rest
unfolding collect_all_from
collect_disposed all i gone [] rest h =
    let q : i ≡ 0 + i = omega arith in
    rw append-nil (ap (λ k. collect_all_from all [] k gone rest) q)
collect_disposed all i gone (r ∷ pre) rest h =
    dispose_first (r.disposal) refl
    ∙ collect_disposed all (suc i) (gone ++ r ∷ []) pre rest h.1
    ∙ ap₂ (λ k g. collect_all_from all [] k g rest) (omega arith) (append_assoc gone (r ∷ []) pre)
  where
    dispose_first :
        (d : Option Err)
        → r.disposal ≡ d
        → collect_all_from all [] i gone (r ∷ pre ++ rest)
          ≡ collect_all_from all [] (suc i) (gone ++ r ∷ []) (pre ++ rest)
    dispose_first none e = ground arith
    dispose_first (some x) e = absurd (ground (arith, h.0))

fails_at :
    (all : List Resource) (i : ℕ) (gone : List Resource) (bad : Resource) (rest : List Resource)
    (e : Err)
    → bad.disposal ≡ some e
    → e ≢ disposable_in_use
    → collect_all_from all [] i gone (bad ∷ rest) ≡ give_up all [] i gone e
unfolding collect_all_from
fails_at all i gone bad rest e h n = ground arith

-- If the first resource cannot be disposed of, for another reason than that it is in use, then
-- CollectAll panics, for it slices from -1.
collect_all_first_fails :
    (g : Collector) (bad : Resource) (rest : List Resource) (e : Err)
    → g.resources ≡ bad ∷ rest
    → bad.disposal ≡ some e
    → e ≢ disposable_in_use
    → collect_all g ≡ panicked g.resources
unfolding collect_all
collect_all_first_fails g bad rest e q h n = rw q (fails_at (bad ∷ rest) 0 [] bad rest e h n)

-- If a later resource cannot be disposed of, for another reason than that it is in use, after those
-- before it were, then CollectAll returns that error, and goes on tracking the resource before the
-- failing one, which it has disposed of.
collect_all_retains_disposed :
    (g : Collector) (pre : List Resource) (last bad : Resource) (rest : List Resource) (e : Err)
    → g.resources ≡ pre ++ last ∷ bad ∷ rest
    → All (λ r. r.disposal ≡ none) (pre ++ last ∷ [])
    → bad.disposal ≡ some e
    → e ≢ disposable_in_use
    → collect_all g ≡ completed (last ∷ bad ∷ rest) (pre ++ last ∷ []) (some e)
unfolding collect_all
collect_all_retains_disposed g pre last bad rest e q h f n = rw q (
    ap (λ xs. collect_all_from all [] 0 [] xs) (sym (append_assoc pre (last ∷ []) (bad ∷ rest)))
    ∙ collect_disposed all 0 [] (pre ++ last ∷ []) (bad ∷ rest) h
    ∙ fails_at all (length (pre ++ last ∷ []) + 0) (pre ++ last ∷ []) bad rest e f n
    ∙ ap (λ i. give_up all [] i (pre ++ last ∷ []) e) index
    ∙ ap (λ xs. completed xs (pre ++ last ∷ []) (some e)) (drop-append pre (last ∷ bad ∷ rest)))
  where
    index : length (pre ++ last ∷ []) + 0 ≡ suc (length pre)
    index = omega (arith, length-append pre (last ∷ []))

    all : List Resource
    all = pre ++ last ∷ bad ∷ rest
