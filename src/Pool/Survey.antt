-- ===== src/Pool/Survey.antt =====
-- serverpool.go: the loops that filter the available backends.
use mathlib.Core.Path.{subst}
use load_balancer_comparison.Base.{
  sym, ◌≡◌, inl, inr, true, false, List, [], ◌∷◌, In, Bool-cases, if◌then◌else◌, arith,
}
use load_balancer_comparison.Backend.{Addr, is_alive}
use load_balancer_comparison.Store.{Store, is_available}
use load_balancer_comparison.Store.Looks.{
  Eases, Eases-refl, Eases-trans, Eases-IsReady, IsReady, look-Eases, is_available-Eases,
  is_available_up, is_available_ready,
}
use load_balancer_comparison.Pool.{
  ServerPool, Summary, get_available_backends, summarise, available_among, get_pool_summary, reason,
  survey,
}

reason-Eases : (p : Addr) (s : Store) → Eases s (reason p s).1
unfolding reason
reason-Eases p s = elim (Bool-cases (is_alive (s.heap p))) [
  | inl up ↦ rw up (look-Eases p s)
  | inr down ↦ rw down (look-Eases p s)
]

-- The store when the loop is done with its first backend.
abbrev after_first : Addr → Store → Store
after_first p s = let (up, s1) = is_available p s in if up then s1 else (reason p s1).1

survey_up :
    (p : Addr) (ps : List Addr) (s : Store)
    → (is_available p s).0 ≡ true
    → let s1 = (is_available p s).1 in
      ((survey (p ∷ ps) s).0.0 ≡ p ∷ (survey ps s1).0.0)
      × ((survey (p ∷ ps) s).1 ≡ (survey ps s1).1)
unfolding survey
survey_up p ps s up = ground arith

survey_down :
    (p : Addr) (ps : List Addr) (s : Store)
    → (is_available p s).0 ≡ false
    → let s2 = (reason p (is_available p s).1).1 in
      ((survey (p ∷ ps) s).0.0 ≡ (survey ps s2).0.0) × ((survey (p ∷ ps) s).1 ≡ (survey ps s2).1)
unfolding survey
survey_down p ps s down = ground arith

pub survey-Eases : (ps : List Addr) (s : Store) → Eases s (survey ps s).1
unfolding survey
survey-Eases [] s = Eases-refl s
survey-Eases (p ∷ ps) s = elim (Bool-cases (is_available p s).0) [
  | inl up ↦
      rw (survey_up p ps s up).1
        (Eases-trans s _ _ (is_available-Eases p s) (survey-Eases ps (is_available p s).1))
  | inr down ↦ rw (survey_down p ps s down).1 (
      Eases-trans s _ _
        (Eases-trans s _ _ (is_available-Eases p s) (reason-Eases p (is_available p s).1))
        (survey-Eases ps (reason p (is_available p s).1).1))
]

-- What the loop returns is in the pool, and ready when the loop ends.
pub survey_sound :
    (ps : List Addr) (s : Store) (q : Addr)
    → In q (survey ps s).0.0
    → In q ps × IsReady ((survey ps s).1.heap q)
unfolding survey
survey_sound [] s q h = elim h [ ]
survey_sound (p ∷ ps) s q h = elim (Bool-cases (is_available p s).0) [
  | inl up ↦
      let s1 : Store = (is_available p s).1 in
      rw (survey_up p ps s up).1 (elim (subst (In q) (survey_up p ps s up).0 h) [
        | inl e ↦ (
          inl e,
          subst (λ r. IsReady ((survey ps s1).1.heap r)) (sym e)
              (Eases-IsReady s1 (survey ps s1).1 p (survey-Eases ps s1) (is_available_up p s up)),
        )
        | inr m ↦ let (member, ready) = survey_sound ps s1 q m in (inr member, ready)
      ])
  | inr down ↦
      let s2 : Store = (reason p (is_available p s).1).1 in
      let (member, ready) = survey_sound ps s2 q (subst (In q) (survey_down p ps s down).0 h) in
      rw (survey_down p ps s down).1 (inr member, ready)
]

-- A backend that is ready when the loop starts is returned.
pub survey_complete :
    (ps : List Addr) (s : Store) (q : Addr) → In q ps → IsReady (s.heap q) → In q (survey ps s).0.0
unfolding survey
survey_complete [] s q h r = elim h [ ]
survey_complete (p ∷ ps) s q h r = elim (Bool-cases (is_available p s).0) [
  | inl up ↦
      let s1 : Store = (is_available p s).1 in
      rw (survey_up p ps s up).0 (elim h [
        | inl e ↦ inl e
        | inr m ↦ inr (survey_complete ps s1 q m (Eases-IsReady s s1 q (is_available-Eases p s) r))
      ])
  | inr down ↦
      let s2 : Store = (reason p (is_available p s).1).1 in
      rw (survey_down p ps s down).0 (elim h [
        | inl e ↦ absurd (cc (is_available_ready p s (rw (← e) r.0) (rw (← e) r.1), down))
        | inr m ↦ survey_complete ps s2 q m (
            Eases-IsReady s s2 q
              (Eases-trans s _ _ (is_available-Eases p s) (reason-Eases p (is_available p s).1)) r)
      ])
]

pub available_among-Eases : (ps : List Addr) (s : Store) → Eases s (available_among ps s).1
unfolding available_among
available_among-Eases [] s = Eases-refl s
available_among-Eases (p ∷ ps) s =
    Eases-trans s _ _ (is_available-Eases p s) (available_among-Eases ps (is_available p s).1)

pub summarise-Eases :
    (ps : List Addr) (counts : Summary) (s : Store) → Eases s (summarise ps counts s).1
unfolding summarise
summarise-Eases [] counts s = Eases-refl s
summarise-Eases (p ∷ ps) counts s =
    Eases-trans s _ _ (is_available-Eases p s)
      (Eases-trans _ _ _ (look-Eases p (is_available p s).1) (summarise-Eases ps _ _))

pub get_available_backends-Eases :
    (pool : ServerPool) (s : Store) → Eases s (get_available_backends pool s).1
unfolding get_available_backends
get_available_backends-Eases pool s = available_among-Eases pool.backends s

pub get_pool_summary-Eases : (pool : ServerPool) (s : Store) → Eases s (get_pool_summary pool s).1
unfolding get_pool_summary
get_pool_summary-Eases pool s = summarise-Eases pool.backends _ s
