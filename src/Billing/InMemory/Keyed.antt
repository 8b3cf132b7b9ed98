-- ===== src/Billing/InMemory/Keyed.antt =====
-- src/exchange/internal/billing/inmemory_adapter.go: every pending hold is the live hold of the key
-- that it was authorized under.
use reference_implementation.Common.{
  Sha256, ◌≡◌, inl, inr, sym, ap, ◌∙◌, false, none, some, List, [], Text, text_eq, text_eq→eq,
  text_eq_refl, ℤ, Option-cases, Bool-cases, arith, lookup, insert, erase, lookup-insert,
  lookup-erase, Distinct, Distinct-insert, Distinct-erase, put, delete, Map, ◌*ℤ◌, leb_ℤ, pos,
  if◌then◌else◌,
}
use mathlib.Core.Path.{subst}
use reference_implementation.Billing.Types.{Amount, AuthorizeRequest}
use reference_implementation.Billing.InMemory.State.{
  Adapter, Reservation, mark_op_done, free_auth, auth_map_key,
}
use reference_implementation.Billing.InMemory.Holds.{
  authorize, authorize_fresh, authorize_held, reserve, live_hold, money_gate, consume_quota,
  next_id,
}

module _ ⦃sha : Sha256⦄ where
  abbrev key_of : Reservation → Text
  key_of r = auth_map_key r.billing_ref r.auth_key

  abbrev KeyedBy : List (Text × Reservation) → Map Text → Type 0
  KeyedBy rs seen =
      Distinct rs
      × ((id : Text) (r : Reservation)
          → lookup id rs ≡ some r
          → text_eq r.auth_key [] ≡ false
          → seen (key_of r) ≡ some id)

  -- Each pending hold with a key is the one that its key is bound to.
  abbrev pub IsKeyed : Adapter → Type 0
  IsKeyed a = KeyedBy a.reserved a.auth_seen

  insert-KeyedBy :
      (id : Text) (r : Reservation) (rs : List (Text × Reservation)) (seen : Map Text)
      → (text_eq r.auth_key [] ≡ false → seen (key_of r) ≡ none)
      → KeyedBy rs seen
      → KeyedBy (insert id r rs) (if text_eq r.auth_key [] then seen else put seen (key_of r) id)
  insert-KeyedBy id r rs seen free (distinct, bound) = (
    Distinct-insert id r rs distinct,
    λ other q e named.
        let at = sym (lookup-insert id other r rs) ∙ e in
        elim (Bool-cases (text_eq id other)) [
          | inl same ↦
              let new : some r ≡ some q = rw same at at in
              let key : text_eq r.auth_key [] ≡ false = cc in
              let one : r ≡ q = cc new in
              rw key (
                subst (λ x. put seen (key_of r) id (key_of x) ≡ some other) one
                  (rw (text_eq_refl (key_of r)) (ap some (text_eq→eq id other same))))
          | inr different ↦
              let old = bound other q (rw different at at) named in
              elim (Bool-cases (text_eq r.auth_key [])) [
                | inl keyless ↦ rw keyless old
                | inr keyed ↦ rw keyed (elim (Bool-cases (text_eq (key_of r) (key_of q))) [
                  | inr apart ↦ rw apart old
                  | inl clash ↦
                      absurd (cc (free keyed, old, text_eq→eq (key_of r) (key_of q) clash))
                ])
              ]
        ],
  )

  erase-KeyedBy :
      (id : Text) (r : Reservation) (rs : List (Text × Reservation)) (seen : Map Text)
      → lookup id rs ≡ some r
      → KeyedBy rs seen
      → KeyedBy (erase id rs) (if text_eq r.auth_key [] then seen else delete seen (key_of r))
  erase-KeyedBy id r rs seen here (distinct, bound) = (
    Distinct-erase id rs distinct,
    λ other q e named.
        let at = sym (lookup-erase id other rs distinct) ∙ e in
        elim (Bool-cases (text_eq id other)) [
          | inl same ↦ absurd (cc (rw same at at))
          | inr different ↦
              let old = bound other q (rw different at at) named in
              elim (Bool-cases (text_eq r.auth_key [])) [
                | inl keyless ↦ rw keyless old
                | inr keyed ↦ rw keyed (elim (Bool-cases (text_eq (key_of r) (key_of q))) [
                  | inr apart ↦ rw apart old
                  | inl clash ↦
                      let owner = bound id r here keyed in
                      let one : some id ≡ some other =
                        sym owner ∙ ap seen (text_eq→eq (key_of r) (key_of q) clash) ∙ old in
                      let same : id ≡ other = cc one in
                      absurd (cc (sym different ∙ ap (text_eq id) (sym same) ∙ text_eq_refl id))
                ])
              ]
        ],
  )

  pub mark_op_done-IsKeyed :
      (id op key : Text) (a : Adapter) → IsKeyed a → IsKeyed (mark_op_done id op key a)
  unfolding mark_op_done
  mark_op_done-IsKeyed id op key a h = elim (Bool-cases (text_eq key [])) [
    | inl keyless ↦ rw (keyless, mark_op_done) h
    | inr keyed ↦ rw (keyed, mark_op_done) h
  ]

  -- A resolved hold leaves the map and frees its key.
  pub free_auth-IsKeyed :
      (id : Text) (r : Reservation) (a b : Adapter)
      → lookup id a.reserved ≡ some r
      → b.reserved ≡ erase id a.reserved
      → b.auth_seen ≡ a.auth_seen
      → IsKeyed a
      → IsKeyed (free_auth r b)
  unfolding free_auth
  free_auth-IsKeyed id r a b here erased same h =
      let after = erase-KeyedBy id r a.reserved a.auth_seen here h in
      elim (Bool-cases (text_eq r.auth_key [])) [
        | inl keyless ↦
            rw (keyless, free_auth)
              (subst (λ rs. KeyedBy rs b.auth_seen) (sym erased)
                (subst (KeyedBy (erase id a.reserved)) (sym same) (rw keyless at after)))
        | inr keyed ↦
            rw (keyed, free_auth)
              (subst (λ rs. KeyedBy rs (delete b.auth_seen (key_of r))) (sym erased)
                (subst (λ seen. KeyedBy (erase id a.reserved) (delete seen (key_of r))) (sym same)
                  (rw keyed at after)))
      ]

  reserve-IsKeyed :
      (req : AuthorizeRequest) (charge : ℤ) (a : Adapter)
      → live_hold req a ≡ none
      → IsKeyed a
      → IsKeyed (reserve req charge a).1
  unfolding reserve
  reserve-IsKeyed req charge a fresh h =
      insert-KeyedBy (next_id a) _ a.reserved a.auth_seen (λ named. rw named at fresh) h

  pub IsKeyed-same :
      (a b : Adapter) → b.reserved ≡ a.reserved → b.auth_seen ≡ a.auth_seen → IsKeyed a → IsKeyed b
  IsKeyed-same a b holds keys h =
      subst (λ rs. KeyedBy rs b.auth_seen) (sym holds) (subst (KeyedBy a.reserved) (sym keys) h)

  consume_quota-same :
      (req : AuthorizeRequest) (a b : Adapter)
      → consume_quota req a ≡ some b
      → (b.reserved ≡ a.reserved) × (b.auth_seen ≡ a.auth_seen)
  unfolding consume_quota
  consume_quota-same req a b h = ground arith

  authorize_held-IsKeyed :
      (req : AuthorizeRequest) (charge : ℤ) (a : Adapter)
      → live_hold req a ≡ none
      → IsKeyed a
      → IsKeyed (authorize_held req charge a).1
  unfolding authorize_held
  authorize_held-IsKeyed req charge a fresh h = elim (Option-cases (consume_quota req a)) [
    | inl over ↦ rw (over, authorize_held) h
    | inr (b, fits) ↦
        let (holds, keys) = consume_quota-same req a b fits in
        rw (fits, authorize_held)
          (reserve-IsKeyed req charge b (rw keys fresh) (IsKeyed-same a b holds keys h))
  ]

  authorize_fresh-IsKeyed :
      (req : AuthorizeRequest) (bal : Amount) (a : Adapter)
      → live_hold req a ≡ none
      → IsKeyed a
      → IsKeyed (authorize_fresh req bal a).1
  unfolding authorize_fresh
  authorize_fresh-IsKeyed req bal a fresh h =
      let charge = req.unit_cost.value *ℤ req.quantity in
      elim (Bool-cases (leb_ℤ req.quantity (pos 0))) [
        | inl empty_order ↦ rw (empty_order, authorize_fresh) h
        | inr some_units ↦ elim (Option-cases (money_gate req bal charge a)) [
          | inl passed ↦
              rw (some_units, passed, authorize_fresh) (authorize_held-IsKeyed req charge a fresh h)
          | inr (d, refused) ↦ rw (some_units, refused, authorize_fresh) h
        ]
      ]

  pub authorize-IsKeyed :
      (req : AuthorizeRequest) (a : Adapter) → IsKeyed a → IsKeyed (authorize req a).1
  unfolding authorize
  authorize-IsKeyed req a h = elim (Option-cases (live_hold req a)) [
    | inr (bid, live) ↦ rw (live, authorize) h
    | inl fresh ↦ elim (Option-cases (a.balances req.billing_ref)) [
      | inl missing ↦ rw (fresh, missing, authorize) h
      | inr (bal, e) ↦ rw (fresh, e, authorize) (authorize_fresh-IsKeyed req bal a fresh h)
    ]
  ]
