-- ===== src/Dataplane/Config.antt =====
-- broker/route_broker_dp_ctrl.c: the configuration file, as inih hands its entries on.
use text.Mathlib.Text.{◌==◌ as str_eq}
use text.Mathlib.TextEquality.{eq_iff}
use Prim.Native.Char.{code}
use vyatta_route_broker.Base.{
  ℕ, ◌+◌, ◌≡◌, ◌∙◌, refl, ap, Bool, true, false, ◌&&◌, List, [], ◌∷◌, Option, none, some, String,
  arith, ◌==◌, leb, if◌then◌else◌,
}

-- An entry `name = value` of a section.
pub record Entry : Type 0 where
  pub section : String
  pub name : String
  pub value : String

-- `struct rib_broker_cfg`; a url is `none` for NULL. `freed` is what `free` was called on.
pub record RibBrokerCfg : Type 0 where
  pub local_ip : ℕ
  pub rib_dp_ctrl_url : Option String
  pub rib_dp_data_url : Option String
  pub freed : List String

abbrev lower : ℕ → ℕ
lower c = if leb b'A' c && leb c b'Z' then c + 32 else c

abbrev strcasecmp_eq : String → String → Bool
strcasecmp_eq String.[] String.[] = true
strcasecmp_eq String.[] (String.◌∷◌ d t) = false
strcasecmp_eq (String.◌∷◌ c s) String.[] = false
strcasecmp_eq (String.◌∷◌ c s) (String.◌∷◌ d t) =
    lower (code c) == lower (code d) && strcasecmp_eq s t

abbrev free_string : Option String → List String → List String
free_string none l = l
free_string (some s) l = s ∷ l

-- The url behind a call of `copy_str`: the copy, or NULL when `strdup` has no memory.
abbrev copied : Bool → String → Option String
copied memory value = if memory then some value else none

-- `inet_pton` is a parameter: whether it succeeds. The address goes over `parse_ipaddress`'s own
-- parameter, and `local_ip` stays. `memory` is whether `strdup` succeeds; the result is that of the
-- callback of inih, `false` for an error.
unfoldable pub parse_entry : (String → Bool) → Bool → RibBrokerCfg → Entry → RibBrokerCfg × Bool
parse_entry inet_pton memory cfg e =
    if strcasecmp_eq e.section "rib"
    then (if str_eq e.name "ip"
        then (cfg, inet_pton e.value)
        else if str_eq e.name "control"
        then (
          record cfg {
            rib_dp_ctrl_url = copied memory e.value;
            freed = free_string cfg.rib_dp_ctrl_url cfg.freed;
          },
          true,
        )
        else if str_eq e.name "data"
        then (
          record cfg {
            rib_dp_data_url = copied memory e.value;
            freed = free_string cfg.rib_dp_data_url cfg.freed;
          },
          true,
        )
        else (cfg, true))
    else (cfg, true)

-- The entries of the file in their order, all of which inih hands on; the result is that of
-- `parse_rib_config` for a file without errors of syntax, `true` for 0.
unfoldable pub parse_entries : (String → Bool) → RibBrokerCfg → List Entry → RibBrokerCfg × Bool
unfolding parse_entry
parse_entries inet_pton cfg [] = (cfg, true)
parse_entries inet_pton cfg (e ∷ es) =
    let r = parse_entry inet_pton true cfg e in
    let rest = parse_entries inet_pton r.0 es in (rest.0, r.1 && rest.1)

-- The value that the last entry of the name gives, in the section whatever its case.
abbrev pub last_value : String → List Entry → Option String → Option String
last_value name [] v = v
last_value name (e ∷ es) v =
    last_value name es
      (if strcasecmp_eq e.section "rib" && str_eq e.name name then some e.value else v)

-- Different names.
apart : (n m k : String) → str_eq m k ≡ false → str_eq n m ≡ true → str_eq n k ≡ false
apart n m k ne e = rw ((eq_iff n m).0 e) ne

entry_control :
    (inet_pton : String → Bool) (cfg : RibBrokerCfg) (e : Entry)
    → (parse_entry inet_pton true cfg e).0.rib_dp_ctrl_url ≡ (
        if strcasecmp_eq e.section "rib" && str_eq e.name "control"
        then some e.value
        else cfg.rib_dp_ctrl_url)
unfolding parse_entry
entry_control inet_pton cfg e = ground (arith, apart e.name "ip" "control" refl)

entry_data :
    (inet_pton : String → Bool) (cfg : RibBrokerCfg) (e : Entry)
    → (parse_entry inet_pton true cfg e).0.rib_dp_data_url ≡ (
        if strcasecmp_eq e.section "rib" && str_eq e.name "data"
        then some e.value
        else cfg.rib_dp_data_url)
unfolding parse_entry
entry_data inet_pton cfg e =
    ground (arith, apart e.name "ip" "data" refl, apart e.name "control" "data" refl)

entry_local_ip :
    (inet_pton : String → Bool) (cfg : RibBrokerCfg) (e : Entry)
    → (parse_entry inet_pton true cfg e).0.local_ip ≡ cfg.local_ip
unfolding parse_entry
entry_local_ip inet_pton cfg e = ground arith

-- While there is memory, each url of the configuration becomes the value of its last entry in the
-- section `rib` or stays when there is none, and the local address stays as it was, whatever the
-- file says of it.
pub parse_entries-last_value :
    (inet_pton : String → Bool) (cfg : RibBrokerCfg) (es : List Entry)
    → ((parse_entries inet_pton cfg es).0.rib_dp_ctrl_url
        ≡ last_value "control" es cfg.rib_dp_ctrl_url)
      × ((parse_entries inet_pton cfg es).0.rib_dp_data_url
          ≡ last_value "data" es cfg.rib_dp_data_url)
      × ((parse_entries inet_pton cfg es).0.local_ip ≡ cfg.local_ip)
unfolding parse_entries
parse_entries-last_value inet_pton cfg [] = (refl, refl, refl)
parse_entries-last_value inet_pton cfg (e ∷ es) =
    let ih = parse_entries-last_value inet_pton (parse_entry inet_pton true cfg e).0 es in
    (
      ih.0 ∙ ap (last_value "control" es) (entry_control inet_pton cfg e),
      ih.1 ∙ ap (last_value "data" es) (entry_data inet_pton cfg e),
      ih.2 ∙ entry_local_ip inet_pton cfg e,
    )
