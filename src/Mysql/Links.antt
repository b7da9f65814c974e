-- ===== src/Mysql/Links.antt =====
-- The connection of a `Mysql` object between the calls (src/mysql_driver.cpp), and the rows that
-- `Mysql::getNextData` returns one after the other.
use programme_bee_gadz.Common.{
  ℕ, zero, suc, ◌≡◌, refl, sym, ap, ◌∙◌, Bool, true, false, Option, none, some, List, ◌∷◌, Result,
  ok, threw, fault, ◌>>◌, continue, pure, codes, get_elem?, Bool-cases, Option-cases, inl, inr,
}
use programme_bee_gadz.Mysql.{
  Account, Client, Mysql, new_mysql, send_request, send_request_data, get_data, push_fields,
  row_fields, store, call_close,
}

-- What the class relies on of the client library: `is_open` says whether a `MYSQL` object has a
-- connection.
pub record IsClient {L R : Type 0} (client : Client L R) (is_open : L → Bool) : Type 0 where
  -- A connection that fails leaves the object without one.
  pub refused :
      (a : Account) (l : L)
      → (client.real_connect a l).0 ≡ false
      → is_open (client.real_connect a l).1 ≡ false
  pub closes : (l : L) → is_open (client.close l) ≡ false

module _ {L R : Type 0} (client : Client L R) where
  -- A call on the object that returns.
  pub data Call : Mysql L R → Mysql L R → Type 0 where
    request :
        (m m' : Mysql L R) (b : Bool) (text : List ℕ)
        → send_request client text m ≡ (ok b, m')
        → Call m m'
    request_data :
        (m m' : Mysql L R) (b : Bool) (text : List ℕ)
        → send_request_data client text m ≡ (ok b, m')
        → Call m m'
    rows :
        (m m' : Mysql L R) (row : List (List ℕ)) (nb_line : ℕ)
        → get_data client nb_line m ≡ (ok row, m')
        → Call m m'

  -- The object after its constructor and any calls.
  pub data Reach : Mysql L R → Type 0 where
    made :
        (a : Account) (raw raw' : L) (m : Mysql L R)
        → new_mysql client a raw ≡ (ok m, raw')
        → Reach m
    called : {m m' : Mysql L R} → Reach m → Call m m' → Reach m'

module _ {L R : Type 0} {client : Client L R} {is_open : L → Bool}
    (laws : IsClient client is_open) where
  new_mysql-closed :
      (a : Account) (raw raw' : L) (m : Mysql L R)
      → new_mysql client a raw ≡ (ok m, raw')
      → is_open m.link ≡ false
  unfolding new_mysql
  new_mysql-closed a raw raw' m e =
      let l = client.options (codes "option") (client.init raw) in
      elim (Bool-cases (client.real_connect a l).0) [
        | inl done ↦
            let same : ok (record {
              account = a;
              link = client.close (client.real_connect a l).1;
              result = none;
              nb_fields = 0;
            })
                ≡ ok m =
              ap (λ (r : Result (Mysql L R) × L). r.0) (rw done at e) in
            let is : record {
              account = a;
              link = client.close (client.real_connect a l).1;
              result = none;
              nb_fields = 0;
            }
                ≡ m =
              cc in
            ap (λ (m : Mysql L R). is_open m.link) (sym is)
            ∙ laws.closes (client.real_connect a l).1
        | inr failed ↦ (let never = ap (λ (r : Result (Mysql L R) × L). r.0) (rw failed at e) in cc)
      ]

  send_request-closed :
      (m m' : Mysql L R) (b : Bool) (text : List ℕ)
      → send_request client text m ≡ (ok b, m')
      → is_open m'.link ≡ false
  unfolding send_request
  send_request-closed m m' b text e = elim (Bool-cases (client.real_connect m.account m.link).0) [
    | inl done ↦
        ap (λ (r : Result Bool × Mysql L R). is_open r.1.link) (sym (rw done at e)) ∙ laws.closes _
    | inr failed ↦
        ap (λ (r : Result Bool × Mysql L R). is_open r.1.link) (sym (rw failed at e))
        ∙ laws.refused m.account m.link failed
  ]

  store_and_close :
      (k m' : Mysql L R) (b : Bool)
      → (store client >> (call_close client >> pure true)) k ≡ (ok b, m')
      → is_open m'.link ≡ false
  store_and_close k m' b e = elim (Option-cases (client.store_result k.link).0) [
    | inl nothing ↦ (let never = ap (λ (r : Result Bool × Mysql L R). r.0) (rw nothing at e) in cc)
    | inr (r, found) ↦
        ap (λ (r : Result Bool × Mysql L R). is_open r.1.link) (sym (rw found at e)) ∙ laws.closes _
  ]

  send_request_data-closed :
      (m m' : Mysql L R) (b : Bool) (text : List ℕ)
      → send_request_data client text m ≡ (ok b, m')
      → is_open m'.link ≡ false
  unfolding send_request_data
  send_request_data-closed m m' b text e =
      elim (Bool-cases (client.real_connect m.account m.link).0) [
        | inl done ↦ elim (Option-cases m.result) [
          | inl empty ↦
              store_and_close (record m { link = asked; result = none }) m' b
                (rw (done, empty) at e)
          | inr (r, old) ↦
              store_and_close (record m { link = client.free_result r asked; result = none }) m' b
                (rw (done, old) at e)
        ]
        | inr failed ↦
            ap (λ (r : Result Bool × Mysql L R). is_open r.1.link) (sym (rw failed at e))
            ∙ laws.refused m.account m.link failed
      ]
    where
      asked : L
      asked = (client.query text (client.real_connect m.account m.link).1).1

  push_fields-link :
      (n i : ℕ) (row : List (List ℕ)) (m : Mysql L R) → (push_fields n i row m).1.link ≡ m.link
  unfolding push_fields
  push_fields-link zero i row m = refl
  push_fields-link (suc n) i row m = elim (Option-cases (get_elem? row i)) [
    | inl e ↦ rw e refl
    | inr (field, e) ↦
        rw e (by_rest field (push_fields n (suc i) row m) (push_fields-link n (suc i) row m))
  ]
    where
      by_rest :
          (f : List ℕ) (r : Result (List (List ℕ)) × Mysql L R)
          → r.1.link ≡ m.link
          → (continue (λ tab. pure (f ∷ tab)) r).1.link ≡ m.link
      by_rest f (ok a, m') e = e
      by_rest f (threw, m') e = e
      by_rest f (fault, m') e = e

  row_fields-link :
      (o : Option (List (List ℕ))) (m : Mysql L R) → (row_fields client o m).1.link ≡ m.link
  row_fields-link none m = refl
  row_fields-link (some row) m = push_fields-link m.nb_fields 0 row m

  get_data-link : (nb_line : ℕ) (m : Mysql L R) → (get_data client nb_line m).1.link ≡ m.link
  unfolding get_data
  get_data-link nb_line m = elim (Option-cases m.result) [
    | inl e ↦ rw e refl
    | inr (r, e) ↦ rw e (row_fields-link (client.fetch_row (client.data_seek nb_line r)).0 _)
  ]

  Call-closed :
      {m m' : Mysql L R} → Call client m m' → is_open m.link ≡ false → is_open m'.link ≡ false
  Call-closed (request m m' b text e) closed = send_request-closed m m' b text e
  Call-closed (request_data m m' b text e) closed = send_request_data-closed m m' b text e
  Call-closed (rows m m' row nb_line e) closed =
      ap (λ (r : Result (List (List ℕ)) × Mysql L R). is_open r.1.link) (sym e)
      ∙ ap is_open (get_data-link nb_line m)
      ∙ closed

-- Between the calls that return, and before the destructor, a `Mysql` object has no connection.
pub Reach-closed :
    {L R : Type 0} {client : Client L R} {is_open : L → Bool}
    → IsClient client is_open
    → {m : Mysql L R} → Reach client m
    → is_open m.link ≡ false
Reach-closed laws (made a raw raw' m e) = new_mysql-closed laws a raw raw' m e
Reach-closed laws (called r c) = Call-closed laws c (Reach-closed laws r)
