-- ===== src/Billing/InMemory/Capped.antt =====
-- src/exchange/internal/billing/inmemory_adapter.go: a billing id is fresh when it is minted, is
-- never both pending and settled, and its refunds never pass the settled charge.
use reference_implementation.Common.{
  ℕ, ◌+◌, ◌<◌, ◌≡◌, ◌≢◌, none, some, List, arith, Text, text_eq_iff, ℤ, pos, ◌+ℤ◌, ◌≤ℤ◌, Map, put,
  lookup, insert, erase, lookup-insert, lookup-erase, Distinct, Distinct-erase, Distinct-insert,
  append_cancel, print_padded_injective,
}
use reference_implementation.Billing.InMemory.State.{Reservation, RecordedTx, mint_id, or_zero}

pub mint_id_injective : (p : Text) (m n : ℕ) → mint_id p m ≡ mint_id p n → m ≡ n
unfolding mint_id
mint_id_injective p m n e = print_padded_injective 6 m n (append_cancel p _ _ e)

-- The three maps that a billing id goes through, with the counter that mints the ids.
pub record Capped (p : Text) (n : ℕ) (rs : List (Text × Reservation)) (done : Map RecordedTx)
    (back : Map ℤ) : Type 0 where
  pub distinct : Distinct rs
  pub unused : (i : ℕ) → n < i → (lookup (mint_id p i) rs ≡ none) × (done (mint_id p i) ≡ none)
  pub apart : (k : Text) (r : Reservation) → lookup k rs ≡ some r → done k ≡ none
  pub unpaid : (k : Text) → done k ≡ none → back k ≡ none
  pub cap : (k : Text) (t : RecordedTx) → done k ≡ some t → or_zero (back k) ≤ℤ t.amt.value

module _ (p : Text) (n : ℕ) (rs : List (Text × Reservation)) (done : Map RecordedTx) (back : Map ℤ)
    (c : Capped p n rs done back) where
  pub Capped-reserve :
      (r : Reservation) → Capped p (n + 1) (insert (mint_id p (n + 1)) r rs) done back
  Capped-reserve r = record {
    distinct = Distinct-insert _ r rs c.distinct;
    unused = λ i h.
        let new = c.unused i (omega arith) in
        let differs : mint_id p (n + 1) ≢ mint_id p i =
          λ e. omega (arith, mint_id_injective p (n + 1) i e) in
        (rw lookup-insert (ground (arith, text_eq_iff (mint_id p (n + 1)) (mint_id p i))), new.1);
    apart = λ k q e. ground (
      arith,
      c.apart k q,
      (c.unused (n + 1) (omega arith)).1,
      lookup-insert (mint_id p (n + 1)) k r rs,
      text_eq_iff (mint_id p (n + 1)) k,
    );
    unpaid = c.unpaid;
    cap = c.cap;
  }

  pub Capped-erase : (id : Text) → Capped p n (erase id rs) done back
  Capped-erase id = record {
    distinct = Distinct-erase id rs c.distinct;
    unused = λ i h.
        let new = c.unused i h in (rw (lookup-erase id _ rs c.distinct) (ground arith), new.1);
    apart = λ k q e. ground (arith, c.apart k q, lookup-erase id k rs c.distinct);
    unpaid = c.unpaid;
    cap = c.cap;
  }

  pub Capped-settle :
      (id : Text) (r : Reservation) (t : RecordedTx)
      → lookup id rs ≡ some r
      → pos 0 ≤ℤ t.amt.value
      → Capped p n (erase id rs) (put done id t) back
  Capped-settle id r t e h = record {
    distinct = Distinct-erase id rs c.distinct;
    unused = λ i lt.
        let new = c.unused i lt in
        (
          rw (lookup-erase id _ rs c.distinct) (ground arith),
          ground (arith, text_eq_iff id (mint_id p i)),
        );
    apart = λ k q f. ground (arith, c.apart k q, lookup-erase id k rs c.distinct);
    unpaid = λ k f. ground (arith, c.unpaid k);
    cap = λ k u f. ground (arith, c.cap k u, text_eq_iff id k, c.apart id r e, c.unpaid id);
  }

  pub Capped-refund :
      (id : Text) (t : RecordedTx) (v : ℤ)
      → done id ≡ some t
      → or_zero (back id) +ℤ v ≤ℤ t.amt.value
      → Capped p n rs done (put back id (or_zero (back id) +ℤ v))
  Capped-refund id t v e h = record {
    distinct = c.distinct;
    unused = c.unused;
    apart = c.apart;
    unpaid = λ k f. ground (arith, c.unpaid k f, text_eq_iff id k);
    cap = λ k u f. ground (arith, c.cap k u f, text_eq_iff id k);
  }
