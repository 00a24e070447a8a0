-- ===== src/Extension/Command/Delivered.antt =====
-- The way of a tab's identity from `executeCommand` (extension/background.js) through the engine of
-- the extension (src/engines/extension.ts) to the proxy that the server reads
-- (src/engines/engine-proxy.ts). Between them is the bridge of the daemon, which is written in
-- another language: it passes on the `_meta` of a result beside its value.
use safari_pilot.Engines.Answers.{Js}
use safari_pilot.Extension.Command.{Api, Request}
use safari_pilot.Params.{str, obj, Value, Fields, member}
use safari_pilot.Prelude.{
  String, ℕ, Option, ◌≡◌, or_default, List, true, some, ap, ◌∙◌, All, sym, ◌++◌, ◌∷◌,
}
use safari_pilot.Engines.Answers.{Reply, response}
use safari_pilot.Extension.Session.{Tab}
use safari_pilot.Engines.Answers.Extension.{
  command_text, extension_js, bridged, extension_js-bridged,
}
use safari_pilot.Engines.Answers.Proxy.{
  Step, EngineProxy, IsSilent, take_steps, in_tab, last_meta-left_meta,
}
use safari_pilot.Extension.Command.Dispatched.{regular_bus, bus_result, identity_of}
use safari_pilot.Extension.Command.Identified.{bus_result-identified}

-- What the bridge replies for a result: a text that is the JSON of the value and of the `_meta`.
pub record IsRelayed (js : Js) (result : Value) (reply : Reply) : Type 0 where
  pub text : String
  pub value : Value
  pub meta : Value
  pub error : Option Value
  pub replied : reply ≡ response true (some (str text)) error
  pub parsed : js.parse (js.trim_end text) ≡ some (bridged value meta)
  pub same_meta : member (some result) "_meta" ≡ some meta

extension_js-meta :
    (js : Js) (run : String → ℕ → Reply) (default_ms : ℕ) (sent : Value) (timeout : Option ℕ)
    (result m : Value)
    → IsRelayed js result (run (command_text js sent) (or_default timeout default_ms))
    → member (some result) "_meta" ≡ some m
    → (extension_js js run default_ms sent timeout).meta ≡ some m
extension_js-meta js run default_ms sent timeout result m relayed has =
    ap (λ a. a.meta)
      (extension_js-bridged js run default_ms sent timeout relayed.text relayed.value relayed.meta
        relayed.error relayed.replied relayed.parsed)
    ∙ sym relayed.same_meta
    ∙ has

-- After a script ran in a tab through the extension, the identity that the server reads is that of
-- the tab in which the extension ran it, whatever the page put into its reply and whatever the
-- proxy was used for before, until it is reset or another script runs, provided that the result is
-- an object and that the bridge replies with its value and its identity.
pub last_meta-identity_of :
    (api : Api) (now : ℕ) (req : Request) (tab : Tab) (script : String) (frame_url : Option String)
    (reply : Option Value) (fs : Fields) (js : Js) (run : String → ℕ → Reply) (default_ms : ℕ)
    (sent : Value) (timeout : Option ℕ) (before after : List Step) (url : String) (p : EngineProxy)
    → or_default reply (regular_bus api now req tab script frame_url).timeout_error ≡ obj fs
    → IsRelayed js
        (bus_result tab (regular_bus api now req tab script frame_url) reply)
        (run (command_text js sent) (or_default timeout default_ms))
    → All IsSilent after
    → (take_steps
        (before ++ (in_tab url (λ c. extension_js js run default_ms sent timeout) ∷ after))
        p).last_meta
      ≡ some (identity_of tab)
last_meta-identity_of api now req tab script frame_url reply fs js run default_ms sent timeout
      before after url p is_object relayed silent =
    last_meta-left_meta before after (in_tab url (λ c. extension_js js run default_ms sent timeout))
      p silent
    ∙ extension_js-meta js run default_ms sent timeout _ (identity_of tab) relayed
        (bus_result-identified api now req tab script frame_url reply fs is_object).0
