-- ===== src/Tokens.antt =====
-- cluster/token_records.go and cluster/token_records.mapper.go: the table of join tokens. A statement
-- is what it does to the rows; those that read them by `ORDER BY secret` are followed by loops to which
-- the order is of no account, and read them as they stand. A time is a number.
pub mod Unique
pub mod Delete
mod Tests
use microcluster.Prelude.{
  ℕ, ◌+◌, Str, str_eq, Bool, true, false, ◌&&◌, ◌||◌, Option, none, some, List, [], ◌∷◌, ◌++◌, ltb,
  length, ◌==◌, Result, ok, err, ◌>>=◌, refuse_if, ◌>>◌, if◌then◌else◌,
}

-- `CoreTokenRecord`; `expiry` is none where the `sql.NullTime` is not valid.
pub record Token : Type 0 where
  pub id : ℕ
  pub secret : Str
  pub name : Str
  pub expiry : Option ℕ

pub data Error : Type 0 where
  not_found conflict constraint : Error
  more_than_one : Error
  rows_deleted : ℕ → Error

-- `Expired`
unfoldable pub expired : ℕ → Token → Bool
expired now t = elim t.expiry [ none ↦ false | some e ↦ ltb e now ]

unfoldable pub with_secret : Str → List Token → List Token
with_secret k [] = []
with_secret k (t ∷ ts) = let rest = with_secret k ts in if str_eq t.secret k then t ∷ rest else rest

only : List Token → Result Error Token
only [] = err not_found
only (t ∷ []) = ok t
only (t ∷ u ∷ ts) = err more_than_one

-- `GetCoreTokenRecord`
unfoldable pub get_token : Str → List Token → Result Error Token
unfolding only
get_token k ts = only (with_secret k ts)

-- `CoreTokenRecordExists`
unfoldable pub token_exists : Str → List Token → Bool
token_exists k [] = false
token_exists k (t ∷ ts) = if str_eq t.secret k then true else token_exists k ts

unfoldable pub name_taken : Str → List Token → Bool
name_taken k [] = false
name_taken k (t ∷ ts) = if str_eq t.name k then true else name_taken k ts

-- `INSERT`, under `UNIQUE (name)` and `UNIQUE (secret)`.
insert_token : Token → List Token → Result Error (List Token)
insert_token t ts =
    if name_taken t.name ts || token_exists t.secret ts then err constraint else ok (ts ++ t ∷ [])

-- `CreateCoreTokenRecord`
unfoldable pub create_token : Token → List Token → Result Error (List Token)
unfolding insert_token
create_token t ts = if token_exists t.secret ts then err conflict else insert_token t ts

-- `DELETE … WHERE name = ?`: the rows left, and the rows affected.
unfoldable pub delete_where : Str → List Token → List Token × ℕ
delete_where k [] = ([], 0)
delete_where k (t ∷ ts) =
    let (rest, n) = delete_where k ts in if str_eq t.name k then (rest, n + 1) else (t ∷ rest, n)

affected : List Token × ℕ → Result Error (List Token)
affected (ts, n) = if n == 0 then err not_found else if ltb 1 n then err (rows_deleted n) else ok ts

-- `DeleteCoreTokenRecord`
unfoldable pub delete_token : Str → List Token → Result Error (List Token)
unfolding affected
delete_token k ts = affected (delete_where k ts)

-- The loop of `DeleteExpiredCoreTokenRecords`, over the rows as they were read.
delete_each : ℕ → List Token → List Token → Result Error (List Token)
delete_each now [] ts = ok ts
delete_each now (t ∷ read) ts =
    let rest = delete_each now read ts in
    if expired now t
    then (elim (delete_token t.name ts) [ err z ↦ err z | ok ts' ↦ delete_each now read ts' ])
    else rest

unfoldable pub delete_expired : ℕ → List Token → Result Error (List Token)
unfolding delete_each
delete_expired now ts = delete_each now ts ts
