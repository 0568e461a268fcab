-- ===== src/Doer/Clients.antt =====
-- The clients that a `Doer` keeps, one per proxy: `getClient`, `touchAccessOrder`,
-- `evictIdleEntries` and `Close` of go-ingestion/internal/proxy/httpdo/doer.go, and `For` of
-- go-ingestion/internal/proxy/transport/transport.go. Times are seconds.
use dota2_analysis.Base.{
  ℕ, ◌-◌, Bool, true, false, ◌||◌, List, [], ◌∷◌, ◌++◌, Option, none, some, ltb, leb, if◌then◌else◌,
  length, Map, lookup, insert, delete,
}
use dota2_analysis.Base.Text.{Text, Text-discrete, codes}

-- The time of the last use of each client, and the urls in the order of use. A client is closed
-- when it leaves the map.
pub record Cache : Type 0 where
  pub transports : Map Text ℕ
  pub access_order : List Text

unfoldable pub same_text : Text → Text → Bool
same_text a b = elim (Text-discrete a b) [ yes _ ↦ true | no _ ↦ false ]

-- Whether `For` makes a transport for a url of this scheme, which `url.Parse` gives in lower case.
unfoldable pub has_transport : (Text → Bool) → Text → Text → Bool
unfolding same_text
has_transport has_dialer url scheme =
    if same_text scheme (codes "http") || same_text scheme (codes "https") || same_text scheme []
    then true
    else if same_text scheme (codes "socks5") || same_text scheme (codes "socks5h")
    then has_dialer url
    else false

unfoldable pub remove_first : Text → List Text → List Text
unfolding same_text
remove_first key [] = []
remove_first key (k ∷ order) =
    let rest = remove_first key order in if same_text k key then order else k ∷ rest

unfoldable pub touch_access_order : Text → List Text → List Text
unfolding remove_first
touch_access_order key order = remove_first key order ++ key ∷ []

abbrev pub max_cache_entries : ℕ
max_cache_entries = 100

-- A full cache gives up the client that was used least recently.
unfoldable pub make_room : Cache → Cache
make_room c =
    if leb max_cache_entries (length c.transports)
    then elim c.access_order [
      | [] ↦ c
      | first ∷ order ↦ record {
        transports = delete Text-discrete first c.transports;
        access_order = order;
      }
    ]
    else c

-- `none` is an error; the cache is then as before.
unfoldable pub get_client : (Text → Option Text) → (Text → Bool) → ℕ → Text → Cache → Option Cache
unfolding has_transport touch_access_order make_room
get_client parse_scheme has_dialer now url c = elim (parse_scheme url) [
  | none ↦ none
  | some scheme ↦ elim (lookup Text-discrete url c.transports) [
    | some _ ↦ some (record {
      transports = insert Text-discrete url now c.transports;
      access_order = touch_access_order url c.access_order;
    })
    | none ↦
        let room = make_room c in
        if has_transport has_dialer url scheme
        then some (record {
          transports = insert Text-discrete url now room.transports;
          access_order = room.access_order ++ url ∷ [];
        })
        else none
  ]
]

abbrev pub direct_key : Text
direct_key = codes "__direct__"

-- The entry that `doDirect` makes or touches, outside the order of use.
unfoldable pub use_direct : ℕ → Cache → Cache
use_direct now c = record c { transports = insert Text-discrete direct_key now c.transports }

-- The first loop of `evictIdleEntries`; ten minutes are 600 seconds.
unfoldable pub keep_recent : ℕ → Map Text ℕ → Map Text ℕ
keep_recent now [] = []
keep_recent now ((url, last_used) ∷ transports) =
    let rest = keep_recent now transports in
    if ltb 600 (now - last_used) then rest else (url, last_used) ∷ rest

unfoldable pub keep_known : Map Text ℕ → List Text → List Text
keep_known transports [] = []
keep_known transports (url ∷ order) =
    let rest = keep_known transports order in
    elim (lookup Text-discrete url transports) [ none ↦ rest | some _ ↦ url ∷ rest ]

unfoldable pub evict_idle_entries : ℕ → Cache → Cache
unfolding keep_recent keep_known
evict_idle_entries now c =
    let kept = keep_recent now c.transports in
    record { transports = kept; access_order = keep_known kept c.access_order }

unfoldable pub close : Cache → Cache
close c = record { transports = []; access_order = [] }
