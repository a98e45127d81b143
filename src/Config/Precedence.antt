-- ===== src/Config/Precedence.antt =====
-- Which source of an option wins.
use cassandra_medusa.Base.{
  ap, true, not, ◌&&◌, Option, none, some, List, [], ◌∷◌, ◌≡◌, ◌∙◌, refl, arith, all, if◌then◌else◌,
}
use cassandra_medusa.Base.Text.{Text, codes, text_eq, text_eq_iff}
use cassandra_medusa.Base.Dict.{lookup, insert, lookup-insert}
use cassandra_medusa.Config.{
  Config, Environ, section, get, set, set_given, set_from, medusa_variable, set_credentials,
  set_others, other_options, handle_env_vars, upper,
}

get-set :
    (name key n k value : Text) (c : Config)
    → get n k (set name key value c)
      ≡ (if text_eq name n && text_eq key k then some value else get n k c)
unfolding get set section
get-set name key n k value c = ground (
  arith,
  lookup-insert name n (insert key value (section name c)) c,
  lookup-insert key k value (section name c),
  text_eq_iff name n,
)

abbrev pub or_else : Option Text → Option Text → Option Text
or_else none o = o
or_else (some v) o = some v

abbrev pub cassandra : Text
cassandra = codes "cassandra"

get-set_from :
    (environ : Environ) (variable key n k : Text) (c : Config)
    → get n k (set_from environ variable key c) ≡ (
        if text_eq cassandra n && text_eq key k
        then or_else (lookup variable environ) (get n k c)
        else get n k c)
unfolding set_from set_given
get-set_from environ variable key n k c = by_value (lookup variable environ)
  where
    by_value :
        (o : Option Text)
        → get n k (set_given o cassandra key c)
          ≡ (if text_eq cassandra n && text_eq key k then or_else o (get n k c) else get n k c)
    by_value none = ground arith
    by_value (some v) = get-set cassandra key n k v c

set_others-spares :
    (environ : Environ) (keys : List Text) (n k : Text) (c : Config)
    → all (λ key. not (text_eq cassandra n && text_eq key k)) keys ≡ true
    → get n k (set_others environ keys c) ≡ get n k c
unfolding set_others all
set_others-spares environ [] n k c h = refl
set_others-spares environ (key ∷ keys) n k c h = ground (
  arith,
  set_others-spares environ keys n k (set_from environ (medusa_variable key) key c),
  get-set_from environ (medusa_variable key) key n k c,
)

set_credentials-spares :
    (environ : Environ) (keys : List Text) (n k : Text) (c : Config)
    → all (λ key. not (text_eq cassandra n && text_eq key k)) keys ≡ true
    → get n k (set_credentials environ keys c) ≡ get n k c
unfolding set_credentials all
set_credentials-spares environ [] n k c h = refl
set_credentials-spares environ (key ∷ keys) n k c h =
    let c1 : Config = set_from environ (upper key) key c in
    ground (
      arith,
      set_credentials-spares environ keys n k (set_from environ (medusa_variable key) key c1),
      get-set_from environ (medusa_variable key) key n k c1,
      get-set_from environ (upper key) key n k c,
    )

-- The credentials of CQL after the environment is read: the variable with the prefix MEDUSA_ wins,
-- then the deprecated one, then what was there.
pub credentials_of_environ :
    (environ : Environ) (c : Config)
    → (get cassandra (codes "cql_username") (handle_env_vars environ c)
        ≡ or_else (lookup (codes "MEDUSA_CQL_USERNAME") environ) (
            or_else
              (lookup (codes "CQL_USERNAME") environ)
              (get cassandra (codes "cql_username") c)))
      × (get cassandra (codes "cql_password") (handle_env_vars environ c)
          ≡ or_else (lookup (codes "MEDUSA_CQL_PASSWORD") environ) (
              or_else
                (lookup (codes "CQL_PASSWORD") environ)
                (get cassandra (codes "cql_password") c)))
unfolding handle_env_vars set_credentials upper text_eq all
credentials_of_environ environ c =
    let user = codes "cql_username" in
    let password = codes "cql_password" in
    let c1 : Config = set_from environ (codes "CQL_USERNAME") user c in
    let c2 : Config = set_from environ (codes "MEDUSA_CQL_USERNAME") user c1 in
    let c3 : Config = set_from environ (codes "CQL_PASSWORD") password c2 in
    let c4 : Config = set_from environ (codes "MEDUSA_CQL_PASSWORD") password c3 in
    (
      set_others-spares environ other_options cassandra user c4 refl
          ∙ get-set_from environ (codes "MEDUSA_CQL_PASSWORD") password cassandra user c3
          ∙ get-set_from environ (codes "CQL_PASSWORD") password cassandra user c2
          ∙ get-set_from environ (codes "MEDUSA_CQL_USERNAME") user cassandra user c1
          ∙ ap (or_else (lookup (codes "MEDUSA_CQL_USERNAME") environ))
              (get-set_from environ (codes "CQL_USERNAME") user cassandra user c),
      set_others-spares environ other_options cassandra password c4 refl
          ∙ get-set_from environ (codes "MEDUSA_CQL_PASSWORD") password cassandra password c3
          ∙ ap (or_else (lookup (codes "MEDUSA_CQL_PASSWORD") environ)) (
              get-set_from environ (codes "CQL_PASSWORD") password cassandra password c2
              ∙ ap (or_else (lookup (codes "CQL_PASSWORD") environ)) (
                  get-set_from environ (codes "MEDUSA_CQL_USERNAME") user cassandra password c1
                  ∙ get-set_from environ (codes "CQL_USERNAME") user cassandra password c)),
    )
