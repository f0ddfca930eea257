-- ===== src/Tests/Hub.antt =====
-- A hub cluster whose state is the list of its sessions, and which stores them.
use telekom_k8s_breakglass.Prelude.{
  In-cons, not_In-nil, length, length-append, ◌<◌, arith, false, [], ◌∷◌, ◌++◌, Str, codes, keep,
  str_eq, str_eq_refl, str_eq_iff, In, map-of_In, AllDistinct, ok, err, if◌then◌else◌, ◌≡◌, refl,
  ap, inl, inr, Bool-cases,
}
use telekom_k8s_breakglass.Api.Session.{Session, SessionStatus}
use telekom_k8s_breakglass.Kube.{Kube}
use telekom_k8s_breakglass.Kube.Store.{IsStore, names, selected, In-middle}
use telekom_k8s_breakglass.Tests.Samples.{Store, kube}

abbrev replace : Str → SessionStatus → Store → Store
replace name st [] = []
replace name st (s ∷ ss) =
    if str_eq s.name name then record s { status = st } ∷ ss else s ∷ replace name st ss

abbrev without : Str → Store → Store
without name [] = []
without name (s ∷ ss) = if str_eq s.name name then ss else s ∷ without name ss

-- The name of a selector on the name, `metadata.name=…`.
abbrev drop_14 : Str → Str
drop_14 (a ∷ b ∷ c ∷ d ∷ e ∷ f ∷ g ∷ h ∷ i ∷ j ∷ k ∷ l ∷ m ∷ n ∷ rest) = rest
drop_14 _ = []

-- A name longer than all.
abbrev pub long_name : Store → Str
long_name [] = 0 ∷ []
long_name (s ∷ ss) = s.name ++ long_name ss

long_name-lt : (w : Store) (n : Str) → In n (names w) → length n < length (long_name w)
long_name-lt [] n m = not_In-nil m
long_name-lt (s ∷ ss) n m = elim (In-cons m) [
  | inl e ↦ rw (← e) (omega (arith, length-append {0} s.name (long_name ss), positive ss))
  | inr k ↦ omega (arith, length-append {0} s.name (long_name ss), long_name-lt ss n k)
]
  where
    positive : (w : Store) → 0 < length (long_name w)
    positive [] = omega arith
    positive (s ∷ w) = omega (arith, length-append {0} s.name (long_name w), positive w)

abbrev pub hub : Kube Store
hub = record kube {
  parse_selector = λ s. ok ((codes "metadata.name", drop_14 s) ∷ []);
  get_session = λ n w. err (codes "not found");
  select_sessions = λ sel w. ok (keep (selected sel) w);
  create_session = λ s w. (ok tt, record s { name = long_name w } ∷ w);
  update_session_status = λ s w. (ok tt, replace s.name s.status w);
  delete_session = λ s w. (ok tt, without s.name w);
}

other_before :
    (x t : Session) (p q : Store) → ¬ In x.name (names (p ++ t ∷ q)) → str_eq x.name t.name ≡ false
other_before x t p q h = elim (Bool-cases (str_eq x.name t.name)) [
  | inr e ↦ e
  | inl e ↦ absurd (
      h (
        rw ((str_eq_iff x.name t.name).0 e)
          (map-of_In (λ (s : Session). s.name) (p ++ t ∷ q) (In-middle p q t))))
]

replace-middle :
    (p q : Store) (t : Session) (st : SessionStatus)
    → AllDistinct (names (p ++ t ∷ q))
    → replace t.name st (p ++ t ∷ q) ≡ p ++ record t { status = st } ∷ q
replace-middle [] q t st d = rw (str_eq_refl t.name)
replace-middle (x ∷ p) q t st (n, d) =
    rw (other_before x t p q n) (ap (λ ss. x ∷ ss) (replace-middle p q t st d))

without-middle :
    (p q : Store) (t : Session)
    → AllDistinct (names (p ++ t ∷ q))
    → without t.name (p ++ t ∷ q) ≡ p ++ q
without-middle [] q t d = rw (str_eq_refl t.name)
without-middle (x ∷ p) q t (n, d) =
    rw (other_before x t p q n) (ap (λ ss. x ∷ ss) (without-middle p q t d))

pub hub-IsStore : IsStore hub (λ w. w)
hub-IsStore = record {
  listed = λ w. refl;
  unnamespaced = λ name w. (codes "not found", refl);
  parsed = λ name w m. refl;
  selects = λ sel w. refl;
  status_updated = λ w p q t s e d n ns v.
      (t.resource_version, refl, rw (n, e) (replace-middle p q t s.status (rw e at d)));
  created = λ w s e. record {
    name = long_name w;
    version = s.resource_version;
    before = [];
    after = w;
    accepted = refl;
    was = refl;
    is_now = refl;
    fresh = λ m. absurd (omega (arith, long_name-lt w (long_name w) m));
  };
  deleted = λ w p q t e d. (refl, rw e (without-middle p q t (rw e at d)));
  escalations_apart = λ esc w. refl;
}
