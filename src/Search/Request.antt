-- ===== src/Search/Request.antt =====
-- src/search.rs: the parameters of a search, and the request that `start_inner` builds of them.
use ldap.Common.{ℕ, Bool, false, Option, none, some, List, [], ◌∷◌, Bytes, map, ok, err}
use ldap.Common.Int.{ℤ, pos}
use ldap.Nom.{NomComplete}
use ldap.Ber.Structure.{application}
use ldap.Ber.Asn.{
  Tag, sequence, vec, default_octet_string, default_enumerated, default_integer, default_boolean,
  default_sequence,
}
use ldap.Filter.Grammar.{parse as parse_filter}
use ldap.Result.Types.{Run, filter_parsing}

pub data Scope : Type 0 where
  base one_level subtree : Scope

-- `scope as i64`.
abbrev pub scope_number : Scope → ℕ
scope_number base = 0
scope_number one_level = 1
scope_number subtree = 2

pub data DerefAliases : Type 0 where
  never searching finding always : DerefAliases

abbrev pub deref_number : DerefAliases → ℕ
deref_number never = 0
deref_number searching = 1
deref_number finding = 2
deref_number always = 3

-- The limits are `i32`.
pub record SearchOptions : Type 0 where
  pub deref : DerefAliases
  pub typesonly : Bool
  pub timelimit : ℤ
  pub sizelimit : ℤ

-- `SearchOptions::new`.
abbrev pub default_options : SearchOptions
default_options = record { deref = never; typesonly = false; timelimit = pos 0; sizelimit = pos 0 }

abbrev pub with_deref : DerefAliases → SearchOptions → SearchOptions
with_deref d opts = record opts { deref = d }

abbrev pub with_typesonly : Bool → SearchOptions → SearchOptions
with_typesonly typesonly opts = record opts { typesonly = typesonly }

abbrev pub with_timelimit : ℤ → SearchOptions → SearchOptions
with_timelimit timelimit opts = record opts { timelimit = timelimit }

abbrev pub with_sizelimit : ℤ → SearchOptions → SearchOptions
with_sizelimit sizelimit opts = record opts { sizelimit = sizelimit }

-- The arguments of a search.
pub record Params : Type 0 where
  pub base_dn : Bytes
  pub scope : Scope
  pub filter : Bytes
  pub attrs : List Bytes

abbrev pub request_of : Params → SearchOptions → Option Tag → Run Tag
request_of p opts none = err filter_parsing
request_of p opts (some filter) = ok (
    sequence 3 application (
      vec (
        default_octet_string p.base_dn
        ∷ default_enumerated (pos (scope_number p.scope))
        ∷ default_enumerated (pos (deref_number opts.deref))
        ∷ default_integer opts.sizelimit
        ∷ default_integer opts.timelimit
        ∷ default_boolean opts.typesonly
        ∷ filter
        ∷ default_sequence (map default_octet_string p.attrs)
        ∷ [])))

module _ (nom : NomComplete) where
  unfoldable pub search_request : Params → SearchOptions → Run Tag
  search_request p opts = request_of p opts (parse_filter nom p.filter)
