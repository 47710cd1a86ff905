-- ===== src/Config/Logging.antt =====
-- The log and HTTP settings of `ResolveWith`.
use Prim.Native.String.{String}
use clatto.Base.{
  if◌then◌else◌, Bool, true, false, ◌||◌, List, [], ◌∷◌, ◌++◌, Result, ok, err, ◌>>=◌,
}
use clatto.Xlate.Events.{Kind}
use clatto.Config.{Level, default_http_listen}
use clatto.Config.Words.{Texts, ◌===◌}

pub data LogError : Type 0 where
  bad_level bad_format unknown_kind : LogError

unfoldable pub parse_level : Texts → String → Result LogError Level
parse_level t s =
    let w = t.to_lower s in
    if w === "" || w === "info"
    then ok Level.info
    else if w === "debug"
    then ok Level.debug
    else if w === "warn" || w === "warning"
    then ok Level.warn
    else if w === "error"
    then ok Level.error
    else err bad_level

-- Whether the log is in JSON.
unfoldable pub parse_format : Texts → String → Result LogError Bool
parse_format t s =
    let w = t.to_lower s in
    if w === "" || w === "json" then ok true else if w === "text" then ok false else err bad_format

abbrev pub all_kinds : List Kind
all_kinds = Kind.drop ∷ Kind.reject ∷ Kind.icmp ∷ Kind.self ∷ Kind.dynamic ∷ []

-- The kinds that a word turns on.
unfoldable pub kinds_of : Texts → String → Result LogError (List Kind)
kinds_of t s =
    let w = t.to_lower s in
    if w === "drop"
    then ok (Kind.drop ∷ [])
    else if w === "reject"
    then ok (Kind.reject ∷ [])
    else if w === "icmp"
    then ok (Kind.icmp ∷ [])
    else if w === "self"
    then ok (Kind.self ∷ [])
    else if w === "dyn" || w === "dynamic"
    then ok (Kind.dynamic ∷ [])
    else if w === "all"
    then ok all_kinds
    else err unknown_kind

-- `PacketKinds`, as the list of the kinds that are on.
unfoldable pub parse_kinds : Texts → List String → Result LogError (List Kind)
parse_kinds t [] = ok []
parse_kinds t (s ∷ ss) = kinds_of t s >>= λ ks. parse_kinds t ss >>= λ rest. ok (ks ++ rest)

unfoldable pub parse_listen : Texts → String → String
parse_listen t s =
    let w = t.to_lower s in
    if w === ""
    then default_http_listen
    else if w === "off" || w === "none" || w === "disabled"
    then ""
    else s
