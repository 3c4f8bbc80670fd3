-- ===== src/Restful/Routes.antt =====
-- Declaring routes and their methods: the Allow header, and routes declared twice.
use dracon.Prelude.{
  ℕ, ◌≡◌, ◌∙◌, refl, sym, ap, subst, true, false, List, [], ◌∷◌, ◌++◌, Option, none, some, Bytes,
  codes, if◌then◌else◌, is_empty, bytes_eq, Bool-cases, Option-cases, inl, inr, append_assoc,
  append-nil, bytes_eq_refl, bytes_eq→eq, ok, ok_inj, >>=-eq-ok,
}
use dracon.Restful.{
  Parts, parse_route_parts, same_parts, Route, find_method, replace_method, add_to_all,
  set_method_handler, new_route, is_route, create_route, bool_eq,
}

-- Names with ", " between them.
unfoldable pub comma_joined : List Bytes → Bytes
comma_joined [] = []
comma_joined (m ∷ []) = m
comma_joined (m ∷ n ∷ ms) = m ++ (codes ", " ++ comma_joined (n ∷ ms))

abbrev pub names {ℓ} : {H : Type ℓ} → List (Bytes × H) → List Bytes
names [] = []
names ((m, h) ∷ ms) = m ∷ names ms

abbrev pub but_options : List Bytes → List Bytes
but_options [] = []
but_options (m ∷ ms) = if bytes_eq m (codes "OPTIONS") then but_options ms else m ∷ but_options ms

abbrev AllNonempty : List Bytes → Type 0
AllNonempty [] = Unit
AllNonempty (m ∷ ms) = (is_empty m ≡ false) × AllNonempty ms

abbrev IsFresh : Bytes → List Bytes → Type 0
IsFresh k [] = Unit
IsFresh k (m ∷ ms) = (bytes_eq m k ≡ false) × IsFresh k ms

-- No name twice.
abbrev AreDistinct : List Bytes → Type 0
AreDistinct [] = Unit
AreDistinct (m ∷ ms) = IsFresh m ms × AreDistinct ms

-- The methods of a route and its Allow header.
pub record IsListed {ℓ} {H : Type ℓ} (rt : Route H) : Type 0 where
  pub allow : rt.m_all_methods ≡ comma_joined (but_options (names rt.m_methods))
  pub named : AllNonempty (names rt.m_methods)
  pub once : AreDistinct (names rt.m_methods)

comma_joined-append :
    (m n : Bytes) (ms : List Bytes)
    → comma_joined ((m ∷ ms) ++ (n ∷ [])) ≡ comma_joined (m ∷ ms) ++ (codes ", " ++ n)
unfolding comma_joined
comma_joined-append m n [] = refl
comma_joined-append m n (k ∷ ms) =
    rw (comma_joined-append k n ms)
      (sym (append_assoc m (codes ", " ++ comma_joined (k ∷ ms)) (codes ", " ++ n)))

comma_joined-nonempty :
    (m : Bytes) (ms : List Bytes) → is_empty m ≡ false → is_empty (comma_joined (m ∷ ms)) ≡ false
unfolding comma_joined
comma_joined-nonempty m [] e = e
comma_joined-nonempty [] (n ∷ ms) e = cc
comma_joined-nonempty (c ∷ m) (n ∷ ms) e = refl

but_options-AllNonempty : (ms : List Bytes) → AllNonempty ms → AllNonempty (but_options ms)
but_options-AllNonempty [] a = tt
but_options-AllNonempty (m ∷ ms) a = elim (Bool-cases (bytes_eq m (codes "OPTIONS"))) [
  | inl e ↦ rw e (but_options-AllNonempty ms a.1)
  | inr e ↦ rw e (a.0, but_options-AllNonempty ms a.1)
]

add_one :
    (m : Bytes) (ms : List Bytes)
    → AllNonempty ms
    → (if is_empty (comma_joined ms) then m else comma_joined ms ++ (codes ", " ++ m))
      ≡ comma_joined (ms ++ (m ∷ []))
unfolding comma_joined
add_one m [] a = refl
add_one m (n ∷ ms) a = rw (comma_joined-nonempty n ms a.0) (sym (comma_joined-append n m ms))

but_options-append :
    (ms : List Bytes) (m : Bytes)
    → but_options (ms ++ (m ∷ [])) ≡ but_options ms ++ but_options (m ∷ [])
but_options-append [] m = refl
but_options-append (n ∷ ms) m = elim (Bool-cases (bytes_eq n (codes "OPTIONS"))) [
  | inl e ↦ rw e (but_options-append ms m)
  | inr e ↦ rw e (ap (◌∷◌ n) (but_options-append ms m))
]

add_to_all-comma_joined :
    (m : Bytes) (ms : List Bytes)
    → AllNonempty ms
    → add_to_all m (comma_joined (but_options ms)) ≡ comma_joined (but_options (ms ++ (m ∷ [])))
unfolding add_to_all
add_to_all-comma_joined m ms a = elim (Bool-cases (bytes_eq m (codes "OPTIONS"))) [
  | inl e ↦ rw (but_options-append ms m, e, append-nil) refl
  | inr e ↦
      rw (but_options-append ms m, e) (add_one m (but_options ms) (but_options-AllNonempty ms a))
]

module _ {ℓ} {H : Type ℓ} where
  names-append :
      (ms : List (Bytes × H)) (m : Bytes) (h : H)
      → names (ms ++ ((m, h) ∷ [])) ≡ names ms ++ (m ∷ [])
  names-append [] m h = refl
  names-append ((n, g) ∷ ms) m h = ap (◌∷◌ n) (names-append ms m h)

  names-replace_method :
      (m : Bytes) (h : H) (ms : List (Bytes × H)) → names (replace_method m h ms) ≡ names ms
  unfolding replace_method
  names-replace_method m h [] = refl
  names-replace_method m h ((n, g) ∷ ms) = elim (Bool-cases (bytes_eq n m)) [
    | inl e ↦ rw e refl
    | inr e ↦ rw e (ap (◌∷◌ n) (names-replace_method m h ms))
  ]

  find_method-IsFresh :
      (m : Bytes) (ms : List (Bytes × H)) → find_method m ms ≡ none → IsFresh m (names ms)
  unfolding find_method
  find_method-IsFresh m [] e = tt
  find_method-IsFresh m ((n, g) ∷ ms) e = elim (Bool-cases (bytes_eq n m)) [
    | inl s ↦ cc (rw s at e)
    | inr s ↦ (s, find_method-IsFresh m ms (rw s at e))
  ]

bytes_eq-false : (a b : Bytes) → bytes_eq a b ≡ false → bytes_eq b a ≡ false
bytes_eq-false a b e = elim (Bool-cases (bytes_eq b a)) [
  | inl same ↦
      cc (subst (λ t. bytes_eq t b ≡ false) (sym (bytes_eq→eq b a same)) e, bytes_eq_refl b)
  | inr other ↦ other
]

IsFresh-append :
    (k m : Bytes) (ms : List Bytes)
    → bytes_eq m k ≡ false
    → IsFresh k ms
    → IsFresh k (ms ++ (m ∷ []))
IsFresh-append k m [] e f = (e, tt)
IsFresh-append k m (n ∷ ms) e f = (f.0, IsFresh-append k m ms e f.1)

AreDistinct-append :
    (m : Bytes) (ms : List Bytes) → IsFresh m ms → AreDistinct ms → AreDistinct (ms ++ (m ∷ []))
AreDistinct-append m [] f d = (tt, tt)
AreDistinct-append m (n ∷ ms) f d =
    (IsFresh-append n m ms (bytes_eq-false n m f.0) d.0, AreDistinct-append m ms f.1 d.1)

AllNonempty-append :
    (m : Bytes) (ms : List Bytes)
    → is_empty m ≡ false
    → AllNonempty ms
    → AllNonempty (ms ++ (m ∷ []))
AllNonempty-append m [] e a = (e, tt)
AllNonempty-append m (n ∷ ms) e a = (a.0, AllNonempty-append m ms e a.1)

module _ {ℓ} {H : Type ℓ} where
  set_method_handler-IsListed :
      (m : Bytes) (h : H) (rt : Route H)
      → is_empty m ≡ false
      → IsListed rt
      → IsListed (set_method_handler m h rt)
  unfolding set_method_handler
  set_method_handler-IsListed m h rt e l = elim (Option-cases (find_method m rt.m_methods)) [
    | inl missing ↦
        let fresh = find_method-IsFresh m rt.m_methods missing in
        let ns = names-append rt.m_methods m h in
        rw (missing, set_method_handler)
          (record {
            allow =
                ap (add_to_all m) l.allow
                ∙ add_to_all-comma_joined m (names rt.m_methods) l.named
                ∙ ap (λ t. comma_joined (but_options t)) (sym ns);
            named =
                subst AllNonempty (sym ns) (AllNonempty-append m (names rt.m_methods) e l.named);
            once =
                subst AreDistinct (sym ns) (AreDistinct-append m (names rt.m_methods) fresh l.once);
          })
    | inr (g, there) ↦
        let ns = names-replace_method m h rt.m_methods in
        rw (there, set_method_handler)
          (record {
            allow = l.allow ∙ ap (λ t. comma_joined (but_options t)) (sym ns);
            named = subst AllNonempty (sym ns) l.named;
            once = subst AreDistinct (sym ns) l.once;
          })
  ]

  find_method-append :
      (k m : Bytes) (h : H) (ms : List (Bytes × H))
      → find_method m ms ≡ none
      → find_method k (ms ++ ((m, h) ∷ [])) ≡ (if bytes_eq m k then some h else find_method k ms)
  unfolding find_method
  find_method-append k m h [] e = refl
  find_method-append k m h ((n, g) ∷ ms) e = elim (Bool-cases (bytes_eq n m)) [
    | inl s ↦ cc (rw s at e)
    | inr s ↦
        let rest = find_method-append k m h ms (rw s at e) in
        elim (Bool-cases (bytes_eq n k)) [
          | inl nk ↦
              let mk : bytes_eq m k ≡ false =
                bytes_eq-false k m (subst (λ t. bytes_eq t m ≡ false) (bytes_eq→eq n k nk) s) in
              rw (nk, mk) refl
          | inr nk ↦ rw nk rest
        ]
  ]

  same_name :
      (k m n : Bytes) (f h : H) (ms : List (Bytes × H))
      → n ≡ m
      → (if bytes_eq m k then some h else find_method k ms)
        ≡ (if bytes_eq m k then some h else (if bytes_eq n k then some f else find_method k ms))
  same_name k m n f h ms nm = elim (Bool-cases (bytes_eq m k)) [
    | inl mk ↦ rw mk refl
    | inr mk ↦ let nk : bytes_eq n k ≡ false = ap (λ t. bytes_eq t k) nm ∙ mk in rw (mk, nk) refl
  ]

  find_method-replace_method :
      (k m : Bytes) (h g : H) (ms : List (Bytes × H))
      → find_method m ms ≡ some g
      → find_method k (replace_method m h ms) ≡ (if bytes_eq m k then some h else find_method k ms)
  unfolding find_method replace_method
  find_method-replace_method k m h g [] e = cc
  find_method-replace_method k m h g ((n, f) ∷ ms) e = elim (Bool-cases (bytes_eq n m)) [
    | inl s ↦
        let nm = bytes_eq→eq n m s in
        rw s (
          ap (λ t. if bytes_eq t k then some h else find_method k ms) nm
          ∙ same_name k m n f h ms nm)
    | inr s ↦
        let rest = find_method-replace_method k m h g ms (rw s at e) in
        elim (Bool-cases (bytes_eq n k)) [
          | inl nk ↦
              let mk : bytes_eq m k ≡ false =
                bytes_eq-false k m (subst (λ t. bytes_eq t m ≡ false) (bytes_eq→eq n k nk) s) in
              rw (s, nk, mk) refl
          | inr nk ↦ rw (s, nk) rest
        ]
  ]

  find_method-set_method_handler :
      (k m : Bytes) (h : H) (rt : Route H)
      → find_method k (set_method_handler m h rt).m_methods
        ≡ (if bytes_eq m k then some h else find_method k rt.m_methods)
  unfolding set_method_handler
  find_method-set_method_handler k m h rt = elim (Option-cases (find_method m rt.m_methods)) [
    | inl missing ↦ rw (missing, set_method_handler) (find_method-append k m h rt.m_methods missing)
    | inr (g, there) ↦
        rw (there, set_method_handler) (find_method-replace_method k m h g rt.m_methods there)
  ]

  -- Registrations on a route, one after the other.
  unfoldable pub register : List (Bytes × H) → Route H → Route H
  register [] rt = rt
  register ((m, h) ∷ regs) rt = register regs (set_method_handler m h rt)

  -- The handler that was registered last for a method, or the one there was.
  unfoldable pub last_registered : Bytes → List (Bytes × H) → Option H → Option H
  last_registered k [] o = o
  last_registered k ((m, h) ∷ regs) o = last_registered k regs (if bytes_eq m k then some h else o)

  -- After any registrations for methods whose names are not empty, each method has the handler that was
  -- registered for it last, and the Allow header lists every method but OPTIONS once, in the order
  -- of the first registrations, with ", " between them.
  pub register-IsListed :
      (regs : List (Bytes × H)) (rt : Route H)
      → AllNonempty (names regs)
      → IsListed rt
      → IsListed (register regs rt)
        × ((k : Bytes)
            → find_method k (register regs rt).m_methods
              ≡ last_registered k regs (find_method k rt.m_methods))
  unfolding register last_registered
  register-IsListed [] rt a l = (l, λ k. refl)
  register-IsListed ((m, h) ∷ regs) rt a l =
      let (listed, found) =
        register-IsListed regs (set_method_handler m h rt) a.1
          (set_method_handler-IsListed m h rt a.0 l) in
      (listed, λ k. found k ∙ ap (last_registered k regs) (find_method-set_method_handler k m h rt))

same_parts_refl : (ps : Parts) → same_parts ps ps ≡ true
unfolding same_parts bool_eq
same_parts_refl [] = refl
same_parts_refl ((true, s) ∷ ps) = rw (bytes_eq_refl s, same_parts_refl ps) refl
same_parts_refl ((false, s) ∷ ps) = rw (bytes_eq_refl s, same_parts_refl ps) refl

module _ {ℓ} {H : Type ℓ} where
  is_route-new_route :
      (route : Bytes) (rt : Route H) → new_route route ≡ ok rt → is_route rt route ≡ ok true
  unfolding new_route is_route
  is_route-new_route route rt e =
      let (parts, e1, e2) = >>=-eq-ok (parse_route_parts route) _ e in
      let same : rt.m_route_parts ≡ parts = ap (λ t. t.m_route_parts) (sym (ok_inj e2)) in
      rw (e1, is_route, same) (ap ok (same_parts_refl parts))

  -- A route that is declared again is the one that is there: nothing is added, and the same route is
  -- returned.
  pub create_route_twice :
      (route : Bytes) (rts rts' : List (Route H)) (i : ℕ)
      → create_route route rts ≡ ok (rts', i)
      → create_route route rts' ≡ ok (rts', i)
  unfolding create_route
  create_route_twice route [] rts' i e =
      let (rt, e1, e2) = >>=-eq-ok (new_route route) _ e in
      let pair = ok_inj e2 in
      let again = is_route-new_route route rt e1 in
      subst (λ t. create_route route t.0 ≡ ok t) pair (rw (again, create_route) refl)
  create_route_twice route (rt ∷ rts) rts' i e =
      let (same, e1, e2) = >>=-eq-ok (is_route rt route) _ e in
      elim (Bool-cases same) [
        | inl found ↦
            let here : ok (rt ∷ rts, 0) ≡ ok (rts', i) = rw found at e2 in
            let again : is_route rt route ≡ ok true = e1 ∙ ap ok found in
            subst (λ t. create_route route t.0 ≡ ok t) (ok_inj here) (rw (again, create_route) refl)
        | inr other ↦
            let (r, e3, e4) = >>=-eq-ok (create_route route rts) _ (rw other at e2) in
            let again : is_route rt route ≡ ok false = e1 ∙ ap ok other in
            let rest = create_route_twice route rts r.0 r.1 e3 in
            subst (λ t. create_route route t.0 ≡ ok t) (ok_inj e4)
              (rw (again, create_route, rest) refl)
      ]
