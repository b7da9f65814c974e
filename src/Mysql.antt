-- ===== src/Mysql.antt =====
-- `class Mysql` (include/mysql_driver.h, src/mysql_driver.cpp): a database, connected to for each
-- request. The MySQL client library is another project's code, and a parameter, over the type `L` of
-- the states of a `MYSQL` object with its server, and the type `R` of results.
pub mod Links
pub mod Rows
use programme_bee_gadz.Common.{
  ℕ, zero, suc, ◌+◌, Bool, true, false, Option, none, some, List, [], ◌∷◌, ◌++◌, Action, fault,
  ◌>>=◌, ◌>>◌, pure, throw, gets, modify, in_range, codes, if◌then◌else◌, get_elem?, ℤ,
}

-- Server, database, user and password
pub record Account : Type 0 where
  pub server : List ℕ
  pub db : List ℕ
  pub user : List ℕ
  pub passwd : List ℕ

-- The calls of the client library that the class makes.
pub record Client (L R : Type 0) : Type 0 where
  -- `mysql_init` and `mysql_options(…, MYSQL_READ_DEFAULT_GROUP, …)`
  pub init : L → L
  pub options : List ℕ → L → L
  -- `mysql_real_connect`; false is the null pointer
  pub real_connect : Account → L → Bool × L
  -- `mysql_query`, `mysql_close`
  pub query : List ℕ → L → ℤ × L
  pub close : L → L
  -- `mysql_store_result`; `none` is the null pointer
  pub store_result : L → Option R × L
  -- `mysql_free_result`, `mysql_num_fields`, `mysql_data_seek`
  pub free_result : R → L → L
  pub num_fields : R → ℕ
  pub data_seek : ℕ → R → R
  -- `mysql_fetch_row` and `mysql_fetch_lengths`: the fields of the row where the result stands, each
  -- of its length; `none` is the null pointer
  pub fetch_row : R → Option (List (List ℕ)) × R

pub record Mysql (L R : Type 0) : Type 0 where
  -- `m_server`, `m_db`, `m_user`, `m_passwd`
  pub account : Account
  -- `m_mysql`
  pub link : L
  -- `m_result`, `m_nbFields`
  pub result : Option R
  pub nb_fields : ℕ

-- A call of an object, with the counter `line` that all objects share.
pub record Session (L R : Type 0) : Type 0 where
  pub mysql : Mysql L R
  -- `static size_t line` of `getNextData`
  pub line : ℕ

module _ {L R : Type 0} where
  abbrev pub set_link : L → Action (Mysql L R) (Unit {0})
  set_link l = modify λ m. record m { link = l }

  -- `tab.push_back(std::string(row[i], lengths[i]))` for the `n` fields from `i` on; a field that the
  -- row does not have is a read past its end.
  unfoldable pub push_fields : ℕ → ℕ → List (List ℕ) → Action (Mysql L R) (List (List ℕ))
  push_fields zero i row = pure []
  push_fields (suc n) i row = do
    field ← in_range (get_elem? row i)
    tab ← push_fields n (suc i) row
    pure (field ∷ tab)

module _ {L R : Type 0} (client : Client L R) where
  -- `mysql_real_connect(&m_mysql, …)`
  abbrev pub connect : Action (Mysql L R) Bool
  connect = do
    a ← gets (λ m. m.account)
    l ← gets (λ m. m.link)
    let (done, l') = client.real_connect a l
    set_link l'
    pure done

  abbrev pub call_close : Action (Mysql L R) (Unit {0})
  call_close = modify λ m. record m { link = client.close m.link }

  -- Both constructors: `raw` is what the memory of `m_mysql` held.
  unfoldable pub new_mysql : Account → Action L (Mysql L R)
  new_mysql account = do
    modify client.init
    modify (client.options (codes "option"))
    l ← gets (λ l. l)
    let (done, l') = client.real_connect account l
    modify (λ l. l')
    if done
        then (modify client.close
            >> (gets (λ l. l) >>= λ l.
                pure (record { account = account; link = l; result = none; nb_fields = 0 })))
        else throw

  abbrev pub free : Option R → Action (Mysql L R) (Unit {0})
  free none = pure tt
  free (some r) = modify λ m. record m { link = client.free_result r m.link }

  -- `Mysql::~Mysql`
  unfoldable pub delete_mysql : Action (Mysql L R) (Unit {0})
  delete_mysql = do r ← gets (λ m. m.result); free r; call_close

  -- `Mysql::sendRequest`
  unfoldable pub send_request : List ℕ → Action (Mysql L R) Bool
  send_request request = do
    connected ← connect
    if connected
        then (modify (λ m. record m { link = (client.query request m.link).1 })
            >> (call_close >> pure true))
        else pure false

  -- `m_result = mysql_store_result(&m_mysql); m_nbFields = mysql_num_fields(m_result);`: the number of
  -- fields of a null pointer is a fault.
  abbrev pub store : Action (Mysql L R) (Unit {0})
  store = do
    l ← gets (λ m. m.link)
    let (r, l') = client.store_result l
    modify (λ m. record m { link = l'; result = r })
    result ← in_range r
    modify (λ m. record m { nb_fields = client.num_fields result })

  -- `Mysql::sendRequestData`
  unfoldable pub send_request_data : List ℕ → Action (Mysql L R) Bool
  send_request_data request = do
    connected ← connect
    if connected
        then (modify (λ m. record m { link = (client.query request m.link).1 })
            >> (gets (λ m. m.result) >>= λ r.
                (free r
                  >> (modify (λ m. record m { result = none })
                      >> (store >> (call_close >> pure true))))))
        else pure false

  -- From `if (!row)` on
  abbrev pub row_fields : Option (List (List ℕ)) → Action (Mysql L R) (List (List ℕ))
  row_fields none = pure []
  row_fields (some row) = do n ← gets (λ m. m.nb_fields); push_fields n 0 row

  -- `Mysql::getData`; without a result, a fault
  unfoldable pub get_data : ℕ → Action (Mysql L R) (List (List ℕ))
  get_data nb_line = do
    o ← gets (λ m. m.result)
    r ← in_range o
    let (row, r') = client.fetch_row (client.data_seek nb_line r)
    modify (λ m. record m { result = some r' })
    row_fields row

  -- `Mysql::getNextData`
  unfoldable pub get_next_data : Action (Session L R) (List (List ℕ))
  get_next_data s =
      let (r, m) = get_data s.line s.mysql in (r, record { mysql = m; line = s.line + 1 })
