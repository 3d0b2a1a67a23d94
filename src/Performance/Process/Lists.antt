-- ===== src/Performance/Process/Lists.antt =====
-- Lists of threads: their jobs, and which have returned.
use nng_examples.Prelude.{
  ℕ, zero, suc, ◌≡◌, refl, ap, subst, ◌==◌, ◌++◌, Bool, true, false, List, [], ◌∷◌, some, get_elem?,
  set, map, All, inl, inr, Bool-cases, ==_iff, get_elem?-set_ne,
}
use nng_examples.Platform.{Prog, ret, exit, fault, call, returns}
use nng_examples.Platform.Documented.{Texts, View}
use nng_examples.Platform.Rules.{Always, Post}
use nng_examples.Performance.Process.{Thread, done, finished}

pub All-map : (P R : ℕ → Type 0) → ((n : ℕ) → P n → R n) → (ns : List ℕ) → All P ns → All R ns
All-map P R f [] a = tt
All-map P R f (n ∷ ns) a = (f n a.0, All-map P R f ns a.1)

pub map-append_one :
    (ths : List Thread) (th : Thread)
    → map (λ (x : Thread). x.job) (ths ++ th ∷ []) ≡ map (λ (x : Thread). x.job) ths ++ th.job ∷ []
map-append_one [] th = refl
map-append_one (x ∷ ths) th = ap (◌∷◌ x.job) (map-append_one ths th)

pub map-set_job :
    (ths : List Thread) (i : ℕ) (th : Thread) (q : Prog Bool)
    → get_elem? ths i ≡ some th
    → map (λ (x : Thread). x.job) (set ths i (record { job = th.job; code = q }))
      ≡ map (λ (x : Thread). x.job) ths
map-set_job [] i th q e = refl
map-set_job (x ∷ ths) zero th q e = let same : th ≡ x = cc in rw same refl
map-set_job (x ∷ ths) (suc i) th q e = ap (◌∷◌ x.job) (map-set_job ths i th q e)

pub get_elem?-map :
    (ths : List Thread) (i : ℕ) (th : Thread)
    → get_elem? ths i ≡ some th
    → get_elem? (map (λ (x : Thread). x.job) ths) i ≡ some th.job
get_elem?-map [] i th e = cc
get_elem?-map (x ∷ ths) zero th e = cc
get_elem?-map (x ∷ ths) (suc i) th e = get_elem?-map ths i th e

pub done_ret :
    (t : Texts) (q : Prog Bool) (v : View) (R : Post Bool)
    → done q ≡ true
    → Always t q v R
    → R (returns true) v
done_ret t (ret b) v R e a = subst (λ x. R (returns x) v) e a
done_ret t (exit n) v R e a = cc
done_ret t fault v R e a = cc
done_ret t (call c k) v R e a = cc

-- A thread that has returned is not taken back by what the others do.
pub finished-set :
    (ths : List Thread) (i n : ℕ) (th th' : Thread)
    → get_elem? ths i ≡ some th
    → done th.code ≡ false
    → finished (get_elem? ths n) ≡ true
    → finished (get_elem? (set ths i th') n) ≡ true
finished-set ths i n th th' at_i going ended = elim (Bool-cases (i == n)) [
  | inl same ↦
      let e : get_elem? ths n ≡ some th =
        subst (λ m. get_elem? ths m ≡ some th) ((==_iff i n).0 same) at_i in
      let ended' : done th.code ≡ true = rw e at ended in cc
  | inr other ↦ rw (get_elem?-set_ne ths i n th' (λ e. cc ((==_iff i n).1 e))) ended
]

pub finished_append :
    (ths : List Thread) (n : ℕ) (th : Thread)
    → finished (get_elem? ths n) ≡ true
    → finished (get_elem? (ths ++ th ∷ []) n) ≡ true
finished_append [] n th e = cc
finished_append (x ∷ ths) zero th e = e
finished_append (x ∷ ths) (suc n) th e = finished_append ths n th e
