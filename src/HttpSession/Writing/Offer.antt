-- ===== src/HttpSession/Writing/Offer.antt =====
-- What a TLS session hands to SSL_write of several buffers.
use dracon.HttpParser.Sized.{take-min}
use dracon.Prelude.{
  ℕ, zero, suc, ◌-◌, ◌<◌, ◌≤◌, ◌≡◌, ◌∙◌, refl, sym, ap, arith, min, true, List, [], ◌∷◌, ◌++◌,
  Bytes, leb, ltb, is_empty, length, take, flatten, take-append, take_all, length-take, append-nil,
  Bool-cases, inl, inr,
}
use dracon.HttpSession.Writing.{gather, ssl_offer, ssl_write_some, int_max}

take_nil : (n : ℕ) → ◌≡◌ {A = Bytes} [] (take n [])
take_nil zero = refl
take_nil (suc n) = refl

take-append_both :
    (n : ℕ) (xs ys : Bytes) → take n (xs ++ ys) ≡ take n xs ++ take (n - length xs) ys
take-append_both n [] ys =
    let same : n ≡ n - 0 = omega arith in
    ap (λ k. take k ys) same ∙ ap (λ t. t ++ take (n - 0) ys) (take_nil n)
take-append_both zero (x ∷ xs) ys =
    let none : 0 ≡ 0 - length (x ∷ xs) = omega arith in ap (λ k. take k ys) none
take-append_both (suc n) (x ∷ xs) ys =
    ap (λ t. x ∷ t) (take-append_both n xs ys ∙ ap (λ k. take n xs ++ take k ys) (omega arith))

gather-take : (room : ℕ) (bufs : List Bytes) → gather room bufs ≡ take room (flatten bufs)
unfolding gather
gather-take room [] = take_nil room
gather-take room (f ∷ p) =
    ap (λ t. take room f ++ t) (gather-take (room - length f) p)
    ∙ sym (take-append_both room f (flatten p))

last_has :
    (f : Bytes) (p : List Bytes) → is_empty p ≡ true → 0 < length (flatten (f ∷ p)) → 0 < length f
last_has f [] e h = rw (append-nil f) at h
last_has f (x ∷ p) e h = cc

-- The first so many bytes of all that is to write, and at least one.
pub record Offers (offered all : Bytes) : Type 0 where
  pub first : offered ≡ take (length offered) all
  pub some : 0 < length offered

take-take_least : (n m : ℕ) (ys : Bytes) → n ≤ m → take n (take m ys) ≡ take n ys
take-take_least zero m ys h = refl
take-take_least (suc n) zero ys h = absurd (omega (arith, h))
take-take_least (suc n) (suc m) [] h = refl
take-take_least (suc n) (suc m) (y ∷ ys) h = ap (◌∷◌ y) (take-take_least n m ys (omega (arith, h)))

-- A first part of a first part.
take-first :
    (n : ℕ) (xs ys : Bytes) → xs ≡ take (length xs) ys → take n xs ≡ take (length (take n xs)) ys
take-first n xs ys e =
    sym (take-min n xs)
    ∙ ap (take (min n (length xs))) e
    ∙ take-take_least (min n (length xs)) (length xs) ys (omega arith)
    ∙ ap (λ k. take k ys) (sym (length-take n xs))

ssl_write_some-Offers : (xs all : Bytes) → Offers xs all → Offers (ssl_write_some xs) all
unfolding ssl_write_some
ssl_write_some-Offers xs all o = elim (Bool-cases (ltb (length xs) int_max)) [
  | inl fits ↦ rw (fits, ssl_write_some) o
  | inr long ↦
      let len = length-take int_max xs in
      rw (long, ssl_write_some)
        (record { first = take-first int_max xs all o.first; some = omega (arith, len, o.some) })
]

module _ (socket_size flat_size : ℕ) (room : 0 < min flat_size socket_size) (f : Bytes)
    (p : List Bytes) (left : 0 < length (flatten (f ∷ p))) where
  gathered : Offers (gather (min flat_size socket_size) (f ∷ p)) (flatten (f ∷ p))
  gathered =
      let n = min flat_size socket_size in
      let all = flatten (f ∷ p) in
      let len : length (take n all) ≡ min n (length all) = length-take n all in
      rw (gather-take n (f ∷ p)) (record {
        first = sym (take-min n all) ∙ sym (ap (λ k. take k all) len);
        some = omega (arith, len, room, left);
      })

  front_whole : 0 < length f → Offers f (flatten (f ∷ p))
  front_whole h = record {
    first =
        sym (
          take-append (length f) f (flatten p) (omega arith) ∙ take_all (length f) f (omega arith));
    some = h;
  }

  -- Whatever the sizes of the buffers, where the flat buffer and the socket's write size are not
  -- 0: the bytes offered are the first of those that are to write, at least one where one is left,
  -- so that SSL_write never gets them out of order and is never called with nothing.
  pub ssl_offer-Offers : Offers (ssl_offer socket_size flat_size (f ∷ p)) (flatten (f ∷ p))
  unfolding ssl_offer
  ssl_offer-Offers = elim (Bool-cases (is_empty p)) [
    | inl last ↦
        rw (last, ssl_offer)
          (ssl_write_some-Offers f (flatten (f ∷ p)) (front_whole (last_has f p last left)))
    | inr more ↦ elim (Bool-cases (leb socket_size (length f))) [
      | inl long ↦
          rw (more, long, ssl_offer)
            (ssl_write_some-Offers f (flatten (f ∷ p)) (front_whole (ground (arith, long, room))))
      | inr short ↦
          rw (more, short, ssl_offer)
            (ssl_write_some-Offers (gather (min flat_size socket_size) (f ∷ p)) (flatten (f ∷ p))
              gathered)
    ]
  ]
