-- ===== src/Alerts/Kinds.antt =====
-- Safe names of alerts: `safe_kind`, `safe_summary` and the patterns of `TelegramPatch` in
-- backend/src/marketmind/alerts.py.
use market_mind.Prelude.{
  ℕ, zero, suc, ◌==◌, ◌≡◌, Bool, true, false, ◌&&◌, ◌||◌, Option, none, some, List, [], ◌∷◌,
  if◌then◌else◌, leb, is_some,
}
use Prim.Native.Char.{Char, code}
use Prim.Native.String.{String}
use text.Mathlib.Text.{◌==◌ as str_eq}

-- kinds with the summaries that may be stored and sent
abbrev pub summaries : List (String × String)
summaries =
    ("waiting_login", "登录会话失效，请在管理页重新扫码。")
    ∷ ("login_expired", "登录会话失效，请在管理页重新扫码。")
    ∷ ("proxy_exhausted", "来源指定代理已耗尽，请检查出口配置。")
    ∷ ("proxy_direct_fallback", "代理已耗尽，来源已按配置回退直连。")
    ∷ ("collection_failed", "来源持续采集失败，请检查运行详情。")
    ∷ ("parse_failed", "来源页面解析失败，请检查采集器。")
    ∷ ("rate_limited", "来源持续限速，请检查运行详情。")
    ∷ ("queue_backlog", "来源采集队列积压，请检查执行器。")
    ∷ ("coverage_gap", "来源采集覆盖存在缺口，请检查回补范围。")
    ∷ ("database_unavailable", "数据库依赖不可用，请检查服务。")
    ∷ ("redis_unavailable", "Redis 依赖不可用，请检查服务。")
    ∷ ("recovery_exhausted", "来源自动恢复预算已耗尽，请人工检查并恢复。")
    ∷ ("access_denied", "来源访问被拒绝，请检查登录或站点限制。")
    ∷ ("circuit_open", "来源持续失败，已触发熔断。")
    ∷ []

abbrev pub lookup : String → List (String × String) → Option String
lookup k [] = none
lookup k ((name, text) ∷ rest) = if str_eq name k then some text else lookup k rest

abbrev pub is_digit : Char → Bool
is_digit c = leb 48 (code c) && leb (code c) 57

abbrev pub is_hex : Char → Bool
is_hex c = is_digit c || (leb 97 (code c) && leb (code c) 102)

abbrev pub is_letter : Char → Bool
is_letter c = (leb 65 (code c) && leb (code c) 90) || (leb 97 (code c) && leb (code c) 122)

abbrev pub is_word : Char → Bool
is_word c = is_letter c || is_digit c || code c == 95

abbrev pub is_token_char : Char → Bool
is_token_char c = is_word c || code c == 45

-- exactly n characters of this class
abbrev pub is_text_of : (Char → Bool) → ℕ → String → Bool
is_text_of p zero String.[] = true
is_text_of p (suc n) (String.◌∷◌ c s) = p c && is_text_of p n s
is_text_of p _ _ = false

abbrev pub join : String → String → String
join String.[] t = t
join (String.◌∷◌ c s) t = String.◌∷◌ c (join s t)

-- the text after a prefix
abbrev pub strip : String → String → Option String
strip String.[] s = some s
strip (String.◌∷◌ p ps) String.[] = none
strip (String.◌∷◌ p ps) (String.◌∷◌ c s) = if code p == code c then strip ps s else none

abbrev is_digest : Option String → Bool
is_digest none = false
is_digest (some s) = is_text_of is_hex 16 s

-- `event_[0-9a-f]{16}`
abbrev pub is_event_kind : String → Bool
is_event_kind k = is_digest (strip "event_" k)

-- `s[:n]`
abbrev pub first : ℕ → String → String
first (suc n) (String.◌∷◌ c s) = String.◌∷◌ c (first n s)
first _ _ = String.[]

-- A SHA-256 digest in hexadecimal.
pub record Digest : Type 0 where
  pub digest : String → String
  pub digest_hex : (k : String) → is_text_of is_hex 64 (digest k) ≡ true

abbrev pub is_safe : String → Bool
is_safe k = is_some (lookup k summaries) || is_event_kind k

unfoldable pub safe_kind : Digest → String → String
safe_kind d k = if is_safe k then k else join "event_" (first 16 (d.digest k))

unfoldable pub safe_summary : String → Bool → String
safe_summary k resolved =
    if resolved
    then "对应故障已恢复。"
    else elim (lookup k summaries) [ none ↦ "来源运行异常，请在管理页检查状态。" | some text ↦ text ]

-- how many characters of the class a text begins with, at most, and the rest
abbrev pub run_of : (Char → Bool) → String → ℕ × String
run_of p String.[] = (0, String.[])
run_of p (String.◌∷◌ c s) =
    let (n, rest) = run_of p s in if p c then (suc n, rest) else (0, String.◌∷◌ c s)

abbrev pub is_run : (Char → Bool) → ℕ → ℕ → String → Bool
is_run p least most s = let (n, rest) = run_of p s in leb least n && leb n most && str_eq rest ""

-- `@[A-Za-z][A-Za-z0-9_]{3,98}` after its first character
abbrev pub is_name : String → Bool
is_name String.[] = false
is_name (String.◌∷◌ c s) = is_letter c && is_run is_word 3 98 s

-- `-?[0-9]{1,30}|@[A-Za-z][A-Za-z0-9_]{3,98}`
unfoldable pub validate_chat : String → Bool
validate_chat String.[] = false
validate_chat (String.◌∷◌ c s) =
    if code c == 64
    then is_name s
    else if code c == 45
    then is_run is_digit 1 30 s
    else is_run is_digit 1 30 (String.◌∷◌ c s)

-- the part of a token after its digits
abbrev pub is_secret : String → Bool
is_secret String.[] = false
is_secret (String.◌∷◌ c s) = code c == 58 && is_run is_token_char 20 100 s

-- `[0-9]{5,20}:[A-Za-z0-9_-]{20,100}`
unfoldable pub validate_token : String → Bool
validate_token s = let (n, rest) = run_of is_digit s in leb 5 n && leb n 20 && is_secret rest
