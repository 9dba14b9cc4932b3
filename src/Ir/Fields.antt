-- ===== src/Ir/Fields.antt =====
-- crates/clash-prism-core/src/ir.rs: the fields of proxies that expressions may read.
use clash_prism_engine.Base.{
  ◌≡◌, refl, String, Bool, true, false, not, ◌&&◌, List, [], ◌∷◌, arith, string_eq, eq_iff,
  contains,
}

abbrev pub static_proxy_fields : List String
static_proxy_fields =
    "name" ∷ "type" ∷ "server" ∷ "port" ∷ "uuid" ∷ "password" ∷ "cipher" ∷ "tls" ∷ "sni"
    ∷ "skip-cert-verify" ∷ "fingerprint" ∷ "alpn" ∷ "network" ∷ "ws-opts" ∷ "grpc-opts" ∷ "h2-opts"
    ∷ "reality-opts" ∷ "flow" ∷ "username" ∷ "alterId" ∷ "protocol" ∷ "plugin" ∷ "plugin-opts"
    ∷ "udp" ∷ "udp-over-tcp" ∷ "smux" ∷ "servername" ∷ "client-fingerprint" ∷ "shadow-tls"
    ∷ "hy2-opts" ∷ []

abbrev pub runtime_proxy_fields : List String
runtime_proxy_fields =
    "delay" ∷ "latency" ∷ "speed" ∷ "loss_rate" ∷ "success_rate" ∷ "history" ∷ "alive" ∷ "last_test"
    ∷ []

unfoldable pub is_runtime_field : String → Bool
is_runtime_field field = contains field runtime_proxy_fields

unfoldable pub is_static_field : String → Bool
is_static_field field = contains field static_proxy_fields

are_disjoint : List String → List String → Bool
are_disjoint [] ys = true
are_disjoint (x ∷ xs) ys = not (contains x ys) && are_disjoint xs ys

not-contains_of_disjoint :
    (xs ys : List String) (f : String)
    → are_disjoint xs ys ≡ true
    → contains f xs ≡ true
    → contains f ys ≡ false
unfolding are_disjoint contains
not-contains_of_disjoint [] ys f d h = cc
not-contains_of_disjoint (x ∷ xs) ys f d h =
    ground (arith, not-contains_of_disjoint xs ys f, eq_iff x f)

fields_disjoint : are_disjoint static_proxy_fields runtime_proxy_fields ≡ true
unfolding are_disjoint contains
fields_disjoint = refl

-- No field counts both as known at compile time and as known only at run time.
pub is_static_field-is_runtime_field :
    (field : String) → is_static_field field ≡ true → is_runtime_field field ≡ false
unfolding is_static_field is_runtime_field
is_static_field-is_runtime_field field h =
    not-contains_of_disjoint static_proxy_fields runtime_proxy_fields field fields_disjoint h
