-- ===== src/Server/Routes.antt =====
-- The routes that RegisterAll registers.
use telekom_k8s_breakglass.Prelude.{
  List, [], ◌∷◌, ◌++◌, Str, codes, str_eq_iff, Result-cases, In, here, there, In-cons, not_In-nil,
  ◌≡◌, ◌⊎◌, inl, inr, refl, sym, Bool-cases,
}
use telekom_k8s_breakglass.Server.{
  Controller, api_route, root_route, is_webhook, register_root, register_all,
}

-- A route that a controller may have: under /api, and for the webhook also under the root.
abbrev pub RouteOf : Str → Controller → Type 0
RouteOf route c =
    (route ≡ api_route c) ⊎ ((c.base_path ≡ codes "breakglass/webhook") × (route ≡ root_route c))

In-snoc : {a x : Str} (xs : List Str) → In a (xs ++ x ∷ []) → In a xs ⊎ (a ≡ x)
In-snoc [] m = elim (In-cons m) [ inl e ↦ inr (sym e) | inr n ↦ not_In-nil n ]
In-snoc (y ∷ xs) m = elim (In-cons m) [
  | inl e ↦ inl (here e)
  | inr n ↦ elim (In-snoc xs n) [ inl k ↦ inl (there k) | inr e ↦ inr e ]
]

register_root-RouteOf :
    (c : Controller) (routes : List Str) (route : Str)
    → In route (register_root c routes).1
    → In route routes ⊎ RouteOf route c
unfolding register_root is_webhook
register_root-RouteOf c routes route m = elim (Bool-cases (is_webhook c)) [
  | inr w ↦ inl (rw (register_root, w) at m)
  | inl w ↦ elim (Result-cases (c.register (root_route c))) [
    | inr (x, e) ↦ inl (rw (register_root, w, e) at m)
    | inl (_, e) ↦ elim (In-snoc routes (rw (register_root, w, e) at m)) [
      | inl n ↦ inl n
      | inr q ↦ inr (inr ((str_eq_iff _ _).0 w, q))
    ]
  ]
]

-- RegisterAll registers no route but `/api/<base path>` of a controller, and `/breakglass/webhook` for
-- the webhook's: every route after it was there before or is one of these, also where it fails.
pub register_all_sound :
    (cs : List Controller) (routes : List Str) (route : Str)
    → In route (register_all cs routes).1
    → In route routes ⊎ ((c : Controller) × In c cs × RouteOf route c)
unfolding register_all
register_all_sound [] routes route m = inl m
register_all_sound (c ∷ cs) routes route m = elim (Result-cases (c.register (api_route c))) [
  | inr (x, e) ↦ inl (rw (register_all, e) at m)
  | inl (_, e) ↦ elim (Result-cases (register_root c (routes ++ api_route c ∷ [])).0) [
    | inr (x, q) ↦ at_root (register_root-RouteOf c _ route (rw (register_all, e, q) at m))
    | inl (_, q) ↦
        elim (register_all_sound cs (register_root c (routes ++ api_route c ∷ [])).1 route
          (rw (register_all, e, q) at m)) [
            | inl n ↦ at_root (register_root-RouteOf c _ route n)
            | inr (d, n, r) ↦ inr (d, there n, r)
          ]
  ]
]
  where
    at_root :
        In route (routes ++ api_route c ∷ []) ⊎ RouteOf route c
        → In route routes ⊎ ((d : Controller) × In d (c ∷ cs) × RouteOf route d)
    at_root (inr r) = inr (c, here refl, r)
    at_root (inl n) = elim (In-snoc routes n) [ inl k ↦ inl k | inr q ↦ inr (c, here refl, inl q) ]
