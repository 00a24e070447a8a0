-- ===== src/Config/Typed.antt =====
-- The type of a configuration that `loadConfig` (src/config.ts) returns.
use safari_pilot.Config.Load.{field_of}
use safari_pilot.Config.{Fields, Json, Items, lookup, obj, num, positive, bool, arr, str, nil, cons}
use safari_pilot.Prelude.{Option, String, Bool, ◌≡◌, ◌==◌, some, false, string_eq}

abbrev IsObject : Option Json → Type 0
IsObject o = (fs : Fields) × (o ≡ some (obj fs))

abbrev IsLimit : Option Json → Type 0
IsLimit o = (digits : String) × (o ≡ some (num (positive digits)))

abbrev IsSwitch : Option Json → Type 0
IsSwitch o = (b : Bool) × (o ≡ some (bool b))

abbrev AreTexts : Items → Type 0
AreTexts nil = Unit
AreTexts (cons v vs) = ((s : String) × (v ≡ str s)) × AreTexts vs

abbrev IsTexts : Option Json → Type 0
IsTexts o = (vs : Items) × ((o ≡ some (arr vs)) × AreTexts vs)

abbrev IsFilled : Option Json → Type 0
IsFilled o = (s : String) × ((o ≡ some (str s)) × ((s == "") ≡ false))

-- A value of a section.
abbrev setting : String → String → Fields → Option Json
setting part key config = field_of key (lookup part config)

-- The sections, each with its values, and the switch that stands by itself.
abbrev IsRateLimit : Fields → Type 0
IsRateLimit config =
    IsObject (lookup "rateLimit" config)
    × IsLimit (setting "rateLimit" "maxActionsPerMinute" config)
    × IsLimit (setting "rateLimit" "windowMs" config)

abbrev IsCircuitBreaker : Fields → Type 0
IsCircuitBreaker config =
    IsObject (lookup "circuitBreaker" config)
    × IsLimit (setting "circuitBreaker" "errorThreshold" config)
    × IsLimit (setting "circuitBreaker" "windowMs" config)
    × IsLimit (setting "circuitBreaker" "cooldownMs" config)

abbrev IsDomainPolicy : Fields → Type 0
IsDomainPolicy config =
    IsObject (lookup "domainPolicy" config)
    × IsLimit (setting "domainPolicy" "defaultMaxActionsPerMinute" config)
    × IsTexts (setting "domainPolicy" "blocked" config)
    × IsTexts (setting "domainPolicy" "trusted" config)

abbrev IsKillSwitch : Fields → Type 0
IsKillSwitch config =
    IsObject (lookup "killSwitch" config)
    × IsSwitch (setting "killSwitch" "autoActivation" config)
    × IsLimit (setting "killSwitch" "maxErrors" config)
    × IsLimit (setting "killSwitch" "windowSeconds" config)

abbrev IsAudit : Fields → Type 0
IsAudit config =
    IsObject (lookup "audit" config)
    × IsLimit (setting "audit" "maxEntries" config)
    × IsFilled (setting "audit" "logPath" config)

abbrev IsDaemon : Fields → Type 0
IsDaemon config = IsObject (lookup "daemon" config) × IsLimit (setting "daemon" "timeoutMs" config)

abbrev IsHealthCheck : Fields → Type 0
IsHealthCheck config =
    IsObject (lookup "healthCheck" config) × IsLimit (setting "healthCheck" "timeoutMs" config)

abbrev IsExtension : Fields → Type 0
IsExtension config =
    IsObject (lookup "extension" config)
    × IsSwitch (setting "extension" "enabled" config)
    × IsFilled (setting "extension" "killSwitchVersion" config)

abbrev pub IsConfig : Fields → Type 0
IsConfig config =
    IsRateLimit config
    × IsCircuitBreaker config
    × IsDomainPolicy config
    × IsKillSwitch config
    × IsAudit config
    × IsDaemon config
    × IsHealthCheck config
    × IsExtension config
    × IsSwitch (lookup "legacyMainWorld" config)
