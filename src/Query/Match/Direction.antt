-- ===== src/Query/Match/Direction.antt =====
-- dirMatch and ipFieldMatch agree on one boundary between internal and external addresses.
use archer.Prelude.{
  ◌≡◌, ◌⊎◌, refl, Bool, false, not, ◌&&◌, none, some, Text, codes, to_lower, arith,
}
use archer.Net.{Net}
use archer.Query.Term.{new_term}
use archer.Query.Match.{is_internal_ip, direction_match, dir_match, ip_field_match}

module _ (net : Net) where
  -- For two endpoints that parse: `outbound`, `inbound`, `internal` and `external` hold as the
  -- two are internal or not, and `lateral` is `internal`.
  pub dir_match_placed :
      (src dst : Text) (si di : Bool)
      → is_internal_ip net src ≡ some si
      → is_internal_ip net dst ≡ some di
      → (dir_match net src dst (codes "outbound") ≡ (si && not di))
        × (dir_match net src dst (codes "inbound") ≡ (not si && di))
        × (dir_match net src dst (codes "internal") ≡ (si && di))
        × (dir_match net src dst (codes "lateral") ≡ (si && di))
        × (dir_match net src dst (codes "external") ≡ (not si && not di))
  unfolding dir_match direction_match to_lower
  dir_match_placed src dst si di p q = rw (p, q) (refl, refl, refl, refl, refl)

  -- For a pair with an endpoint that does not parse: no direction matches.
  pub dir_match_unplaced :
      (src dst value : Text)
      → (is_internal_ip net src ≡ none) ⊎ (is_internal_ip net dst ≡ none)
      → dir_match net src dst value ≡ false
  unfolding dir_match
  dir_match_unplaced src dst value h = ground arith

  -- `src:word` and `dst:word` on an address
  abbrev pub address_is : Text → Text → Bool
  address_is ip word = ip_field_match net ip (record (new_term (codes "src")) { value = word })

  -- For any two endpoints: a pair is outbound exactly if `src:private` and `dst:public` hold of
  -- it, inbound if `src:external` and `dst:rfc1918` do, internal if `src:rfc1918` and
  -- `dst:private` do, and external if `src:public` and `dst:external` do.
  pub dir_match-ip_field_match :
      (src dst : Text)
      → (dir_match net src dst (codes "outbound")
          ≡ (address_is src (codes "private") && address_is dst (codes "public")))
        × (dir_match net src dst (codes "inbound")
            ≡ (address_is src (codes "external") && address_is dst (codes "rfc1918")))
        × (dir_match net src dst (codes "internal")
            ≡ (address_is src (codes "rfc1918") && address_is dst (codes "private")))
        × (dir_match net src dst (codes "external")
            ≡ (address_is src (codes "public") && address_is dst (codes "external")))
  unfolding dir_match direction_match ip_field_match to_lower
  dir_match-ip_field_match src dst = ground arith

  -- public is not the negation of private: no word matches an address that does not parse.
  pub address_is_unplaced :
      (ip : Text)
      → is_internal_ip net ip ≡ none
      → (address_is ip (codes "private") ≡ false) × (address_is ip (codes "public") ≡ false)
  unfolding ip_field_match to_lower
  address_is_unplaced ip h = ground arith

  pub address_is_placed :
      (ip : Text) (b : Bool)
      → is_internal_ip net ip ≡ some b
      → (address_is ip (codes "private") ≡ b) × (address_is ip (codes "public") ≡ not b)
  unfolding ip_field_match to_lower
  address_is_placed ip b h = ground arith
