-- ===== src/Collector/Topics.antt =====
-- The topics of a subscription: buildTopics of internal/collector/service.go and the functions that
-- read a topic back in internal/collector/stream/handlers.go.
use ai_trading_v.Prelude.{
  ◌==◌, Bool, true, false, not, ◌&&◌, if◌then◌else◌, String, str_eq, List, [], ◌∷◌, get_or, length,
  ltb, ◌≡◌, refl, arith, map, take,
}
use Prim.Native.Char.{Char, char, code}

-- The character `.`.
abbrev pub dot : Char
dot = char 46 tt

-- Go's `+` on texts.
unfoldable pub join : String → String → String
join String.[] t = t
join (String.◌∷◌ c s) t = String.◌∷◌ c (join s t)

-- strings.HasPrefix
unfoldable pub has_prefix : String → String → Bool
has_prefix s String.[] = true
has_prefix String.[] (String.◌∷◌ d t) = false
has_prefix (String.◌∷◌ c s) (String.◌∷◌ d t) = code c == code d && has_prefix s t

unfoldable pub prepend : Char → List String → List String
prepend c [] = String.◌∷◌ c "" ∷ []
prepend c (p ∷ ps) = String.◌∷◌ c p ∷ ps

-- strings.Split with a separator of one character.
unfoldable pub split : String → Char → List String
split String.[] sep = "" ∷ []
split (String.◌∷◌ c s) sep =
    let rest = split s sep in if code c == code sep then "" ∷ rest else prepend c rest

unfoldable pub kline_interval_to_tf : String → String
kline_interval_to_tf interval =
    if str_eq interval "15" then "15m" else if str_eq interval "60" then "1h" else interval

-- The symbol and the timeframe of a topic.
unfoldable pub parse_kline_topic : String → String × String
parse_kline_topic topic =
    let parts = split topic dot in
    if ltb (length parts) 3
    then ("", "")
    else (get_or parts 2 "", kline_interval_to_tf (get_or parts 1 ""))

unfoldable pub build_topics : List String → List String
build_topics [] = []
build_topics (sym ∷ symbols) =
    join "kline.15." sym
    ∷ join "kline.60." sym
    ∷ join "tickers." sym
    ∷ join "allLiquidation." sym
    ∷ build_topics symbols

-- A text without the character.
unfoldable pub lacks : Char → String → Bool
lacks sep String.[] = true
lacks sep (String.◌∷◌ c s) = not (code c == code sep) && lacks sep s

split-lacks : (s : String) (sep : Char) → lacks sep s ≡ true → split s sep ≡ s ∷ []
unfolding split lacks prepend
split-lacks String.[] sep h = refl
split-lacks (String.◌∷◌ c s) sep h = ground (arith, h, split-lacks s sep)

-- The klines' topics that buildTopics makes for a symbol without a dot are handled as klines and read
-- back to this symbol and to the timeframe whose interval at the exchange is in the topic.
pub parse_kline_topic-build_topics :
    (sym : String)
    → lacks dot sym ≡ true
    → (map parse_kline_topic (take 2 (build_topics (sym ∷ []))) ≡ (sym, "15m") ∷ (sym, "1h") ∷ [])
      × (map (λ t. has_prefix t "kline.") (build_topics (sym ∷ []))
          ≡ true ∷ true ∷ false ∷ false ∷ [])
unfolding parse_kline_topic build_topics join split has_prefix kline_interval_to_tf prepend
parse_kline_topic-build_topics sym h = rw (split-lacks sym dot h) (refl, refl)
