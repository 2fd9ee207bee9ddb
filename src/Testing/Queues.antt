-- ===== src/Testing/Queues.antt =====
-- helpers/src/testing/harness.rs: sends to the queues of users that have room.
use multiplayer_kit.Base.{
  ℕ, suc, ◌+◌, ◌≤◌, ◌<◌, ◌≡◌, refl, sym, ap, ◌∙◌, Option, none, some, List, [], ◌∷◌, ◌++◌, Bool,
  true, false, length, length-append, lt→ltb, if◌then◌else◌, ite, ℕ_discrete, Option-cases,
  Bool-cases, inl, inr, append_assoc, append-nil, arith, All, Option,
}
use multiplayer_kit.Base.Map.{Map, get, insert, get-insert}
use multiplayer_kit.Testing.{Queue, capacity, send, send_to_one, send_to_all}

-- A queue with messages behind what waits in it; a closed one takes none.
abbrev pub extended : {A : Type 0} → List A → Queue A → Queue A
extended ms q = record q { waiting = if q.is_open then q.waiting ++ ms else q.waiting }

abbrev pub extended_if : {A : Type 0} → List A → Option (Queue A) → Option (Queue A)
extended_if ms none = none
extended_if ms (some q) = some (extended ms q)

abbrev pub HasRoom : {A : Type 0} → ℕ → Queue A → Type 0
HasRoom n q = length q.waiting + n ≤ capacity

module _ {A : Type 0} where
  pub send-HasRoom :
      (n : ℕ) (q : Queue A) (a : A)
      → HasRoom (suc n) q
      → (send q a ≡ some (extended (a ∷ []) q)) × HasRoom n (extended (a ∷ []) q)
  unfolding send
  send-HasRoom n q a h = elim (Bool-cases q.is_open) [
    | inl e ↦
        let room : length q.waiting < capacity = omega (arith, h) in
        (
          rw e (rw (lt→ltb (length q.waiting) capacity room) refl),
          rw e (omega (arith, length-append q.waiting (a ∷ []), h)),
        )
    | inr e ↦ (rw e refl, rw e (omega (arith, h)))
  ]

  waiting_nil : (b : Bool) (ws : List A) → (if b then ws ++ [] else ws) ≡ ws
  waiting_nil true ws = append-nil ws
  waiting_nil false ws = refl

  pub extended_nil : (q : Queue A) → extended [] q ≡ q
  extended_nil q = λ i. record { waiting = waiting_nil q.is_open q.waiting i; is_open = q.is_open }

  waiting_twice :
      (b : Bool) (ws xs ys : List A)
      → (if b then (if b then ws ++ xs else ws) ++ ys else (if b then ws ++ xs else ws))
        ≡ (if b then ws ++ (xs ++ ys) else ws)
  waiting_twice true ws xs ys = append_assoc ws xs ys
  waiting_twice false ws xs ys = refl

  pub extended_twice :
      (xs ys : List A) (q : Queue A) → extended ys (extended xs q) ≡ extended (xs ++ ys) q
  extended_twice xs ys q =
      λ i. record { waiting = waiting_twice q.is_open q.waiting xs ys i; is_open = q.is_open }

  pub extended_if_nil : (q : Option (Queue A)) → extended_if [] q ≡ q
  extended_if_nil none = refl
  extended_if_nil (some q) = ap some (extended_nil q)

  pub extended_if_twice :
      (xs ys : List A) (q : Option (Queue A))
      → extended_if ys (extended_if xs q) ≡ extended_if (xs ++ ys) q
  extended_if_twice xs ys none = refl
  extended_if_twice xs ys (some q) = ap some (extended_twice xs ys q)

  -- Each entry has room.
  abbrev pub Roomy : ℕ → Map ℕ (Queue A) → Type 0
  Roomy n clients = All (λ e. HasRoom n e.1) clients

  Roomy-insert :
      (n id : ℕ) (q : Queue A) (clients : Map ℕ (Queue A))
      → HasRoom n q
      → Roomy n clients
      → Roomy n (insert ℕ_discrete id q clients)
  unfolding insert
  Roomy-insert n id q [] h k = (h, tt)
  Roomy-insert n id q ((j, p) ∷ clients) h k =
      elim (ℕ_discrete j id)
        as (λ d. Roomy n (ite d ((id, q) ∷ clients) ((j, p) ∷ insert ℕ_discrete id q clients))) [
          | yes e ↦ (h, k.1)
          | no ne ↦ (k.0, Roomy-insert n id q clients h k.1)
        ]

  pub Roomy-fewer : (n : ℕ) (clients : Map ℕ (Queue A)) → Roomy (suc n) clients → Roomy n clients
  Roomy-fewer n [] h = tt
  Roomy-fewer n ((j, p) ∷ clients) h = (omega (arith, h.0), Roomy-fewer n clients h.1)

  Roomy-get :
      (n id : ℕ) (q : Queue A) (clients : Map ℕ (Queue A))
      → Roomy n clients
      → get ℕ_discrete id clients ≡ some q
      → HasRoom n q
  unfolding get
  Roomy-get n id q [] h k = absurd (cc)
  Roomy-get n id q ((j, p) ∷ clients) h k =
      (elim (ℕ_discrete j id)
          as (λ d. ite d (some p) (get ℕ_discrete id clients) ≡ some q → HasRoom n q) [
            | yes e ↦ λ x. let same : p ≡ q = cc in rw (← same) h.0
            | no ne ↦ λ x. Roomy-get n id q clients h.1 x
          ])
        k

  -- A message for all, or for one, with what the queues have then.
  pub send_to_all-extended :
      (n : ℕ) (clients : Map ℕ (Queue A)) (m : A)
      → Roomy (suc n) clients
      → (after : Map ℕ (Queue A)) × (send_to_all clients m ≡ some after)
        × ((id : ℕ) → get ℕ_discrete id after ≡ extended_if (m ∷ []) (get ℕ_discrete id clients))
        × Roomy n after
  unfolding send_to_all get
  send_to_all-extended n [] m h = ([], refl, λ id. refl, tt)
  send_to_all-extended n ((j, q) ∷ clients) m h =
      let (later, e, found, room) = send_to_all-extended n clients m h.1 in
      let (sent, left_room) = send-HasRoom n q m h.0 in
      (
        (j, extended (m ∷ []) q) ∷ later,
        rw (sent, send_to_all) (rw (e, send_to_all) refl),
        λ id.
            elim (ℕ_discrete j id)
              as (λ d.
                ite d (some (extended (m ∷ []) q)) (get ℕ_discrete id later)
                ≡ extended_if (m ∷ []) (ite d (some q) (get ℕ_discrete id clients))) [
                  | yes k ↦ refl
                  | no k ↦ found id
                ],
        (left_room, room),
      )

  pub send_to_one-extended :
      (n id : ℕ) (clients : Map ℕ (Queue A)) (m : A)
      → Roomy (suc n) clients
      → (after : Map ℕ (Queue A)) × (send_to_one clients id m (get ℕ_discrete id clients)
          ≡ some after)
        × ((j : ℕ)
            → get ℕ_discrete j after
              ≡ extended_if (ite (ℕ_discrete id j) (m ∷ []) []) (get ℕ_discrete j clients))
        × Roomy n after
  unfolding send_to_one
  send_to_one-extended n id clients m h = elim (Option-cases (get ℕ_discrete id clients)) [
    | inl e ↦ (
      clients,
      rw (e, send_to_one) refl,
      λ j.
          (elim (ℕ_discrete id j)
            as (λ d.
              get ℕ_discrete j clients
              ≡ extended_if (ite d (m ∷ []) []) (get ℕ_discrete j clients)) [
                | yes k ↦
                    let gone : get ℕ_discrete j clients ≡ none =
                      ap (λ x. get ℕ_discrete x clients) (sym k) ∙ e in
                    gone ∙ sym (ap (extended_if (m ∷ [])) gone)
                | no k ↦ sym (extended_if_nil (get ℕ_discrete j clients))
              ]),
      Roomy-fewer n clients h,
    )
    | inr (q, e) ↦
        let (sent, left_room) = send-HasRoom n q m (Roomy-get (suc n) id q clients h e) in
        (
          insert ℕ_discrete id (extended (m ∷ []) q) clients,
          rw (e, send_to_one) (rw (sent, send_to_one) refl),
          λ j.
              get-insert ℕ_discrete id j (extended (m ∷ []) q) clients
              ∙ (elim (ℕ_discrete id j)
                  as (λ d.
                    ite d (some (extended (m ∷ []) q)) (get ℕ_discrete j clients)
                    ≡ extended_if (ite d (m ∷ []) []) (get ℕ_discrete j clients)) [
                      | yes k ↦ sym (
                          ap (λ x. extended_if (m ∷ []) (get ℕ_discrete x clients)) (sym k)
                          ∙ ap (extended_if (m ∷ [])) e)
                      | no k ↦ sym (extended_if_nil (get ℕ_discrete j clients))
                    ]),
          Roomy-insert n id (extended (m ∷ []) q) clients left_room (Roomy-fewer n clients h),
        )
  ]
