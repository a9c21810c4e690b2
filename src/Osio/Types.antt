-- ===== src/Osio/Types.antt =====
-- middlewares/osio: the constants, the types and the locator interfaces of osio.go, and the
-- namespace of tenant.go.
use fabric8_oso_proxy.Base.{List, [], ◌∷◌, ◌++◌}
use fabric8_oso_proxy.Base.Strings.{Str, codes}
use fabric8_oso_proxy.Base.Run.{M}

abbrev pub authorization : Str
authorization = codes "Authorization"

abbrev pub impersonate_group_header : Str
impersonate_group_header = codes "Impersonate-Group"

abbrev pub user_id_header : Str
user_id_header = codes "Impersonate-User"

pub data RequestType : Type 0 where
  api metrics console logs undefine : RequestType

-- `string(r)`
abbrev pub text : RequestType → Str
text api = codes "api"
text metrics = codes "metrics"
text console = codes "console"
text logs = codes "logs"
text undefine = []

abbrev pub path : RequestType → Str
path r = b'/' ∷ text r

abbrev pub api_prefix : Str
api_prefix = path api ++ path api

abbrev pub oapi_prefix : Str
oapi_prefix = path api ++ codes "/oapi"

abbrev pub TokenType : Type 0
TokenType = Str

abbrev pub che_token : TokenType
che_token = codes "che"

abbrev pub user_token : TokenType
user_token = codes "user"

abbrev pub token_type_map : List (Str × TokenType)
token_type_map = (codes "rh-che", che_token) ∷ []

pub record Namespace : Type 0 where
  pub name : Str
  pub kind : Str
  pub cluster_url : Str
  pub cluster_metrics_url : Str
  pub cluster_console_url : Str
  pub cluster_logging_url : Str

-- The zero value of the struct.
abbrev pub no_namespace : Namespace
no_namespace = record {
  name = [];
  kind = [];
  cluster_url = [];
  cluster_metrics_url = [];
  cluster_console_url = [];
  cluster_logging_url = [];
}

pub record CacheData : Type 0 where
  pub token : Str
  pub namespace : Namespace

abbrev pub no_data : CacheData
no_data = record { token = []; namespace = no_namespace }

-- The interfaces behind the five fields of `OSIOAuth`, over the state `S` that their
-- implementations share: their own variables and the remote services.
pub record Locators (S : Type 0) : Type 0 where
  pub get_tenant : Str → TokenType → M S Namespace
  pub get_tenant_by_id : Str → TokenType → Str → M S Namespace
  pub get_token_with_user_token : Str → Str → M S Str
  pub get_token_with_sa_token : Str → Str → M S Str
  pub srv_acc_token : M S Str
  pub get_name : Str → Str → Str → Str → M S Str
  pub get_secret : Str → Str → Str → Str → M S Str
  pub token_type : Str → M S TokenType
