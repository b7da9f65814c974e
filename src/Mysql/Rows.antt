-- ===== src/Mysql/Rows.antt =====
-- The rows that `Mysql::getNextData` (src/mysql_driver.cpp) returns one after the other.
use programme_bee_gadz.Common.{
  ℕ, zero, suc, ◌+◌, ◌≡◌, refl, ap, ◌∙◌, some, List, [], ◌∷◌, arith, ok, Action, ◌>>=◌, pure,
  length, get_elem?, drop, drop-cons,
}
use programme_bee_gadz.Mysql.{Client, Mysql, Session, get_data, get_next_data, push_fields}

-- What the class relies on of a result: `table r` are its rows, whichever was fetched last.
pub record IsResult {L R : Type 0} (client : Client L R) (table : R → List (List (List ℕ)))
    : Type 0 where
  pub fetches :
      (r : R) (n : ℕ) → (client.fetch_row (client.data_seek n r)).0 ≡ get_elem? (table r) n
  pub kept : (r : R) (n : ℕ) → table (client.fetch_row (client.data_seek n r)).1 ≡ table r

-- `n` calls of `getNextData`, and what they return
unfoldable pub next_rows :
    {L R : Type 0} → Client L R → ℕ → Action (Session L R) (List (List (List ℕ)))
next_rows client zero = pure []
next_rows client (suc n) = do
  row ← get_next_data client
  rest ← next_rows client n
  pure (row ∷ rest)

-- Every row has this many fields.
abbrev pub AreRows : ℕ → List (List (List ℕ)) → Type 0
AreRows n [] = Unit
AreRows n (row ∷ rows) = (length row ≡ n) × AreRows n rows

module _ {L R : Type 0} where
  push_fields_lem :
      (n i : ℕ) (row rest : List (List ℕ)) (m : Mysql L R)
      → drop i row ≡ rest
      → length rest ≡ n
      → push_fields n i row m ≡ (ok rest, m)
  unfolding push_fields
  push_fields_lem zero i row [] m e long = refl
  push_fields_lem zero i row (f ∷ rest) m e long = absurd (omega arith)
  push_fields_lem (suc n) i row [] m e long = absurd (omega arith)
  push_fields_lem (suc n) i row (f ∷ rest) m e long =
      let (at, later) = drop-cons row i e in
      rw (at, push_fields_lem n (suc i) row rest m later (omega arith)) refl

  module _ {client : Client L R} {table : R → List (List (List ℕ))}
      (laws : IsResult client table) where
    get_data_lem :
        (m : Mysql L R) (n : ℕ) {r : R} {row : List (List ℕ)}
        → m.result ≡ some r
        → get_elem? (table r) n ≡ some row
        → length row ≡ m.nb_fields
        → get_data client n m
          ≡ (ok row, record m { result = some (client.fetch_row (client.data_seek n r)).1 })
    unfolding get_data
    get_data_lem m n {r} {row} e at long =
        rw (e, laws.fetches r n ∙ at) (push_fields_lem m.nb_fields 0 row row _ refl long)

    next_rows_lem :
        (rows : List (List (List ℕ))) (s : Session L R) {r : R}
        → s.mysql.result ≡ some r
        → drop s.line (table r) ≡ rows
        → AreRows s.mysql.nb_fields rows
        → (next_rows client (length rows) s).0 ≡ ok rows
    unfolding next_rows get_next_data
    next_rows_lem [] s e left fields = refl
    next_rows_lem (row ∷ rows) s {r} e left fields =
        let (at, later) = drop-cons (table r) s.line left in
        let one = get_data_lem s.mysql s.line e at fields.0 in
        let next : suc s.line ≡ s.line + 1 = omega arith in
        let r' = (client.fetch_row (client.data_seek s.line r)).1 in
        let s' : Session L R = record {
          mysql = record s.mysql { result = some r' };
          line = s.line + 1;
        } in
        let rest =
          next_rows_lem rows s' {r = r'} refl
            (ap (drop (s.line + 1)) (laws.kept r s.line) ∙ rw (← next) later) fields.1 in
        rw (one, rest) refl

-- A result whose rows all have the fields that the object counts: as many calls of `getNextData` as
-- there are rows from the shared counter `line` on return these rows in their order; the rows before
-- the counter, which earlier calls on any object have moved, are never returned.
pub next_rows_left :
    {L R : Type 0} {client : Client L R} {table : R → List (List (List ℕ))}
    → IsResult client table
    → (s : Session L R) {r : R} → s.mysql.result ≡ some r
    → AreRows s.mysql.nb_fields (drop s.line (table r))
    → (next_rows client (length (drop s.line (table r))) s).0 ≡ ok (drop s.line (table r))
next_rows_left {table = table} laws s {r} e fields =
    next_rows_lem laws (drop s.line (table r)) s e refl fields
