-- ===== src/Cassandra/Ring.antt =====
-- CqlSession of medusa/cassandra_utils.py: the tokens of the ring, and where the node stands in it.
-- `owners` is the driver's map from tokens to hosts, `resolve_fqdn` the resolver of names.
use cassandra_medusa.Base.{Bool, ◌||◌, Option, none, some, List, [], ◌∷◌, map, if◌then◌else◌}
use cassandra_medusa.Base.{Result, ok, err, runtime_error, ◌>>=◌}
use cassandra_medusa.Base.Int.{ℤ}
use cassandra_medusa.Base.Text.{Text, codes, text_eq, leb_text}
use cassandra_medusa.Base.Dict.{insert}
use cassandra_medusa.Base.Sort.{sorted, groupby}
use cassandra_medusa.TokenMap.{TokenMap}

pub record Host : Type 0 where
  pub address : Text
  pub datacenter : Text
  pub rack : Text
  pub is_up : Bool

abbrev pub Owners : Type 0
Owners = List (ℤ × Host)

-- `token`
unfoldable pub token : Text → Owners → Result ℤ
unfolding text_eq
token listen_address [] = err runtime_error
token listen_address ((t, h) ∷ owners) =
    let rest = token listen_address owners in
    if text_eq h.address listen_address then ok t else rest

-- A host's tokens, one after the other.
abbrev pub HostTokens : Type 0
HostTokens = Text × List (Host × ℤ)

module _ (resolve_fqdn : Text → Text) where
  unfoldable pub placement : Text → Owners → Result (Text × Text)
  unfolding text_eq
  placement listen_address [] = err runtime_error
  placement listen_address ((t, h) ∷ owners) =
      let rest = placement listen_address owners in
      if text_eq h.address listen_address
        || text_eq (resolve_fqdn h.address) (resolve_fqdn listen_address)
      then ok (h.datacenter, h.rack)
      else rest

  -- The pairs in the order of the addresses, in groups of one host.
  unfoldable pub host_groups : Owners → List HostTokens
  unfolding groupby sorted leb_text
  host_groups owners =
      groupby (λ (p : Host × ℤ). p.0.address)
        (sorted (λ (p q : Host × ℤ). leb_text p.0.address q.0.address)
          (map (λ (e : ℤ × Host). (e.1, e.0)) owners))

  -- The comprehension: a later host of the same name would replace an earlier one.
  abbrev pub add_group : Text → HostTokens → TokenMap → TokenMap
  unfolding insert text_eq
  add_group dc (address, []) ring = ring
  add_group dc (address, (h, t) ∷ rest) ring =
      if text_eq h.datacenter dc
      then insert (resolve_fqdn h.address)
          (record {
            tokens = t ∷ map (λ (p : Host × ℤ). p.1) rest;
            is_up = h.is_up;
            rack = some h.rack;
            dc = some h.datacenter;
          })
          ring
      else ring

  unfoldable pub ring_of : Text → List HostTokens → TokenMap → TokenMap
  unfolding add_group
  ring_of dc [] ring = ring
  ring_of dc (g ∷ gs) ring = ring_of dc gs (add_group dc g ring)

  unfoldable pub tokenmap : Text → Owners → Result TokenMap
  unfolding placement host_groups ring_of
  tokenmap listen_address owners = do
    place ← placement listen_address owners
    ok (ring_of place.0 (host_groups owners) [])

-- `get_server_type_and_release_version`: the rows of system.local, each with its columns
-- dse_version and release_version, where it has them.
unfoldable pub server_type_and_release_version :
    List (Bool × Option Text) → Text × Text → Text × Text
server_type_and_release_version [] found = found
server_type_and_release_version ((has_dse, version) ∷ rows) (server_type, release) =
    server_type_and_release_version rows (
      (if has_dse then codes "dse" else server_type),
      (elim version [ none ↦ release | some v ↦ v ]),
    )

-- `dump_schema`, and `schema_path_mapping` of the session: one keyspace is left out.
abbrev pub excluded_keyspaces : List Text
excluded_keyspaces = codes "system_traces" ∷ []

-- HostnameResolver: `own_address` is the resolved name of this host, `getfqdn` the resolver of the
-- system, and `pointers` the names that the DNS has for an address.
module _ (own_address : Text) (getfqdn : Text → Text) (is_address : Text → Bool)
    (pointers : Text → List Text) (first_label : Text → Text)
    (looks_like_address : Text → Bool) where
  unfoldable pub first_name : Text → List Text → Text
  first_name ip_address [] = ip_address
  first_name ip_address (fqdn ∷ fqdns) =
      let rest = first_name ip_address fqdns in
      if looks_like_address (first_label fqdn) then rest else first_label fqdn

  unfoldable pub compute_k8s_hostname : Text → Text
  unfolding first_name
  compute_k8s_hostname ip_address =
      if is_address ip_address then first_name ip_address (pointers ip_address) else ip_address

  abbrev address_or_own : Text → Text
  address_or_own [] = own_address
  address_or_own (c ∷ t) = c ∷ t

  unfoldable pub resolve_fqdn : Bool → Bool → Text → Text
  unfolding compute_k8s_hostname
  resolve_fqdn resolve_addresses k8s_mode ip_address =
      let ip = address_or_own ip_address in
      if resolve_addresses then (if k8s_mode then compute_k8s_hostname ip else getfqdn ip) else ip
