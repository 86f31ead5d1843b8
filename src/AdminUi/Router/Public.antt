-- ===== src/AdminUi/Router/Public.antt =====
-- Which requests need no ingress.
use homeassistant_addons.Common.{
  ◌≡◌, Bool, ◌&&◌, ◌||◌, any, String, List, [], ◌∷◌, ◌++◌, contains, Bool-cases, inl, inr, ◌==◌,
  ==_iff, Eq, string_eq, pair_eq, arith,
}
use homeassistant_addons.Common.Text.{upper}
use homeassistant_addons.Common.Action.{◌>>=◌}
use homeassistant_addons.AdminUi.Router.{Router, new_router, may_be_public, opened, add, is_public}

-- A call of `add`.
pub record Call (H : Type 0) : Type 0 where
  pub method : String
  pub pattern : String
  pub handler : H
  pub public : Bool

-- The calls one by one; a call that raises leaves its error to the caller, who goes on.
unfoldable pub registered : {H : Type 0} → List (Call H) → Router H → Router H
registered [] r = r
registered (call ∷ calls) r =
    registered calls (add call.method call.pattern call.handler call.public r).1

-- Whether a call lets a method and a path through.
abbrev pub opens : {H : Type 0} → String → String → Call H → Bool
opens method path call =
    call.public
    && (may_be_public call.pattern
        && (◌==◌ {A = String × String} (method, path) (upper call.method, call.pattern)))

contains-append_one :
    {A : Type 0} ⦃e : Eq A⦄ (xs : List A) (x a : A)
    → contains (xs ++ x ∷ []) a ≡ (contains xs a || (a == x))
contains-append_one [] x a = ground arith
contains-append_one (y ∷ xs) x a = ground (arith, contains-append_one xs x a)

contains-opened :
    (pairs : List (String × String)) (pair a : String × String)
    → contains (opened pair pairs) a ≡ (contains pairs a || (a == pair))
contains-opened pairs pair a = elim (Bool-cases (contains pairs pair)) [
  | inr new ↦ rw new (contains-append_one pairs pair a)
  | inl known ↦ elim (Bool-cases (a == pair)) [
    | inr other ↦ rw (known, other) (ground arith)
    | inl same ↦ rw (known, (==_iff a pair).0 same, known) (ground arith)
  ]
]

module _ {H : Type 0} (method path : String) where
  is_public-add :
      (call : Call H) (r : Router H)
      → is_public method path (add call.method call.pattern call.handler call.public r).1
        ≡ (is_public method path r || opens method path call)
  unfolding add is_public ◌>>=◌
  is_public-add call r = elim (Bool-cases call.public) [
    | inr ingress ↦ rw ingress (ground arith)
    | inl public ↦ elim (Bool-cases (may_be_public call.pattern)) [
      | inr refused ↦ rw (public, refused) (ground arith)
      | inl accepted ↦
          rw (public, accepted)
            (contains-opened r.public_routes (upper call.method, call.pattern) (method, path))
    ]
  ]

  is_public-registered :
      (calls : List (Call H)) (r : Router H)
      → is_public method path (registered calls r)
        ≡ (is_public method path r || any (opens method path) calls)
  unfolding registered
  is_public-registered [] r = ground arith
  is_public-registered (call ∷ calls) r = ground (
    arith,
    is_public-add call r,
    is_public-registered calls (add call.method call.pattern call.handler call.public r).1,
  )

-- Whatever `add` was called with, a method and a path need no ingress exactly if one of the calls was
-- for a public route with that method, in upper case, and that very path, which `add` takes for public.
pub is_public_lem :
    {H : Type 0} (calls : List (Call H)) (method path : String)
    → is_public method path (registered calls (new_router H)) ≡ any (opens method path) calls
unfolding is_public
is_public_lem calls method path = is_public-registered method path calls (new_router _)
