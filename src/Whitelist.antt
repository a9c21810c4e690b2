-- ===== src/Whitelist.antt =====
-- whitelist/ip.go and middlewares/ip_whitelister.go: the addresses that may pass. Package net is a
-- parameter.
pub mod Authorized
use fabric8_oso_proxy.Base.{
  Bool, true, false, not, ◌&&◌, ◌||◌, Option, none, some, List, [], ◌∷◌, ◌++◌, if◌then◌else◌,
}
use fabric8_oso_proxy.Base.Strings.{Str, split}

-- `net.ParseIP`, `net.ParseCIDR`, `IP.Equal`, `IPNet.Contains` and the host of `net.SplitHostPort`;
-- `none` is an error or nil.
pub record Addresses (A N : Type 0) : Type 0 where
  pub parse_ip : Str → Option A
  pub parse_cidr : Str → Option N
  pub ip_equal : A → A → Bool
  pub net_contains : N → A → Bool
  pub split_host_port : Str → Option Str

pub record Ip (A N : Type 0) : Type 0 where
  pub ips : List A
  pub nets : List N
  pub insecure : Bool
  pub use_x_forwarded_for : Bool

-- What `IsAuthorized` reads of a request.
pub record Client : Type 0 where
  pub x_forwarded_for : List Str
  pub remote_addr : Str

-- The errors of `IsAuthorized`.
pub data Refusal : Type 0 where
  unable_to_parse : Str → Refusal
  bad_remote_addr : Str → Refusal
  matched_none : List Str → Refusal

abbrev pub is_nil : {A : Type 0} → List A → Bool
is_nil [] = true
is_nil (_ ∷ _) = false

module _ {A N : Type 0} (net : Addresses A N) where
  abbrev pub with_net : Option N → Ip A N → Option (Ip A N)
  with_net none ip = none
  with_net (some n) ip = some (record ip { nets = ip.nets ++ n ∷ [] })

  abbrev pub with_address : Option A → Str → Ip A N → Option (Ip A N)
  with_address (some a) mask ip = some (record ip { ips = ip.ips ++ a ∷ [] })
  with_address none mask ip = with_net (net.parse_cidr mask) ip

  abbrev pub then_rest : Option (Ip A N) → (Ip A N → Option (Ip A N)) → Option (Ip A N)
  then_rest none f = none
  then_rest (some ip) f = f ip

  -- The loop of `NewIP`.
  unfoldable pub add_masks : List Str → Ip A N → Option (Ip A N)
  add_masks [] ip = some ip
  add_masks (m ∷ ms) ip = then_rest (with_address (net.parse_ip m) m ip) (add_masks ms)

  -- `NewIP`; `none` is an error.
  unfoldable pub new_ip : List Str → Bool → Bool → Option (Ip A N)
  new_ip masks insecure use_xff =
      let ip : Ip A N = record {
        ips = [];
        nets = [];
        insecure = insecure;
        use_x_forwarded_for = use_xff;
      } in
      if is_nil masks && not insecure
      then none
      else if not insecure
      then add_masks masks ip
      else some ip

  unfoldable pub any_ip : A → List A → Bool
  any_ip a [] = false
  any_ip a (b ∷ bs) = net.ip_equal b a || any_ip a bs

  unfoldable pub any_net : A → List N → Bool
  any_net a [] = false
  any_net a (n ∷ ns) = net.net_contains n a || any_net a ns

  -- `ContainsIP`
  unfoldable pub contains_ip : Ip A N → A → Bool
  contains_ip ip a =
      if ip.insecure then true else if any_ip a ip.ips then true else any_net a ip.nets

  abbrev pub contains_parsed : Ip A N → Option A → Option Bool
  contains_parsed ip none = none
  contains_parsed ip (some a) = some (contains_ip ip a)

  -- `contains`; `none` is an error.
  unfoldable pub contains : Ip A N → Str → Option Bool
  contains ip addr = contains_parsed ip (net.parse_ip addr)

  abbrev pub or_whole : Str → Option Str → Str
  or_whole addr none = addr
  or_whole addr (some host) = host

  -- `parseHost`
  unfoldable pub parse_host : Str → Str
  parse_host addr = or_whole addr (net.split_host_port addr)

  abbrev pub verdict : Str → List Str → Option Bool → Option Refusal
  verdict addr invalid none = some (unable_to_parse addr)
  verdict addr invalid (some true) = none
  verdict addr invalid (some false) = some (matched_none invalid)

  abbrev pub check_host : Ip A N → Str → List Str → Option Str → Option Refusal
  check_host ip addr invalid none = some (bad_remote_addr addr)
  check_host ip addr invalid (some host) = verdict host (invalid ++ addr ∷ []) (contains ip host)

  abbrev pub check_remote : Ip A N → Client → List Str → Option Refusal
  check_remote ip c invalid =
      check_host ip c.remote_addr invalid (net.split_host_port c.remote_addr)

  abbrev pub on_entry : Str → Option Bool → Option Refusal → Option Refusal
  on_entry addr none rest = some (unable_to_parse addr)
  on_entry addr (some true) rest = none
  on_entry addr (some false) rest = rest

  -- The two loops over the header's values, on the entries between their commas.
  unfoldable pub check_entries : Ip A N → Client → List Str → List Str → Option Refusal
  check_entries ip c invalid [] = check_remote ip c invalid
  check_entries ip c invalid (e ∷ es) =
      on_entry (parse_host e) (contains ip (parse_host e))
        (check_entries ip c (invalid ++ e ∷ []) es)

  abbrev pub entries : List Str → List Str
  entries [] = []
  entries (v ∷ vs) = split v b',' ++ entries vs

  -- `IsAuthorized`; `none` is a nil error.
  unfoldable pub is_authorized : Ip A N → Client → Option Refusal
  is_authorized ip c =
      if ip.insecure
      then none
      else if ip.use_x_forwarded_for
      then check_entries ip c [] (entries c.x_forwarded_for)
      else check_remote ip c []

  -- `IPWhiteLister.handle`: the next handler, or a refusal with the status 403.
  unfoldable pub handle : {R : Type 0} → R → R → Ip A N → Client → R
  handle next forbidden ip c = elim (is_authorized ip c) [ none ↦ next | some _ ↦ forbidden ]
