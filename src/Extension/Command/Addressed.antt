-- ===== src/Extension/Command/Addressed.antt =====
-- To which tab and frame `executeCommand` (extension/background.js) sends a command, and which
-- frame of a page takes it (extension/lib/route-command.js).
use safari_pilot.Extension.Session.Scoped.{IsDistinctTabs, find_target_tab-window, IsCachedIn}
use safari_pilot.Extension.Command.{
  Api, Request, Bus, Dispatch, on_bus, answered, Try, PageFrame, threw, gave, error_result, dnr,
  cookies, crashed,
}
use safari_pilot.Extension.Frame.{Cmd}
use safari_pilot.Extension.Command.Dispatched.{
  check_frame, dispatch, dispatch_in, send_checked, send_packed, upload_bus, regular_bus, Packed,
  run_pack, stopped, go_on, missing, find_frame, current, is_targeted, broken,
}
use safari_pilot.Prelude.{
  Bool, ℕ, Option, if◌then◌else◌, String, ◌≡◌, none, true, some, Bool-cases, false, List, ◌==◌, inl,
  subst, inr, refl, Option-cases, nat_eq, string_eq, ◌⊎◌,
}
use safari_pilot.Extension.Session.{Tab, Tabs, find_target_tab}
use safari_pilot.Params.{Value}
use safari_pilot.Text.{join, decimal}
use safari_pilot.Extension.TabMatch.{starts_with, Browser}
use safari_pilot.Prelude.Dict.{IsDistinct, get}

-- The addressee of a command on the bus: the top frame of the tab, or the frame that the request
-- names, with the URL that the browser gives for it at the dispatch.
pub data IsAddressed (api : Api) (req : Request) (tab : Tab) (cmd : Cmd) : Type 0 where
  to_top :
      cmd.tab_id ≡ tab.id → cmd.frame_id ≡ none → cmd.frame_url ≡ none → IsAddressed api req tab cmd
  to_frame :
      (f : ℕ) (frames : List PageFrame) (p : PageFrame)
      → cmd.tab_id ≡ tab.id
      → req.frame_id ≡ some f
      → api.get_all_frames tab.id ≡ gave frames
      → find_frame f frames ≡ some p
      → cmd.frame_id ≡ some f
      → cmd.frame_url ≡ some p.url
      → IsAddressed api req tab cmd

-- A dispatch that writes only such commands.
data Sends (P : Cmd → Type 0) : Dispatch → Type 0 where
  no_command : (v : Value) → Sends P (answered v)
  no_result : Sends P crashed
  command : (b : Bus) → P b.cmd → Sends P (on_bus b)

Sends-on_bus : {P : Cmd → Type 0} {b : Bus} → Sends P (on_bus b) → P b.cmd
Sends-on_bus (command b p) = p

upload_bus-Sends :
    (api : Api) (now : ℕ) (req : Request) (tab : Tab) (e m : String) (ms : ℕ)
    → Sends (IsAddressed api req tab) (upload_bus now req tab e m ms)
unfolding upload_bus
upload_bus-Sends api now req tab e m ms = command _ (to_top refl refl refl)

-- The check of a frame finds it, says that it is missing, or has nothing to check.
send_checked-found :
    (api : Api) (now : ℕ) (req : Request) (tab : Tab) (script : String) (f : ℕ)
    → req.frame_id ≡ some f
    → (f == 0) ≡ false
    → (t : Try (List PageFrame)) → api.get_all_frames tab.id ≡ t
    → Sends (IsAddressed api req tab) (
        send_checked api now req tab script (elim t [
          | threw m ↦ missing (
              error_result "FRAME_NOT_FOUND" (
                join "webNavigation.getAllFrames failed for tab "
                  (join (decimal tab.id) (join ": " m))))
          | gave frames ↦ elim (find_frame f frames) [
            | none ↦ missing (
                error_result "FRAME_NOT_FOUND"
                  (join "Frame " (join (decimal f) (join " not found in tab " (decimal tab.id)))))
            | some p ↦ current (some p.url)
          ]
        ]))
unfolding send_checked regular_bus
send_checked-found api now req tab script f e nonzero (threw m) t = no_command _
send_checked-found api now req tab script f e nonzero (gave frames) t =
    elim (Option-cases (find_frame f frames)) [
      | inl gone ↦ rw gone (no_command _)
      | inr there ↦ rw (there.1) (
          command _ (
            to_frame f frames there.0 refl e t there.1 (rw (e, nonzero) refl)
              (rw (e, nonzero) refl)))
    ]

untargeted-IsAddressed :
    (api : Api) (now : ℕ) (req : Request) (tab : Tab) (script : String)
    → is_targeted req.frame_id ≡ false
    → IsAddressed api req tab (regular_bus api now req tab script none).cmd
unfolding regular_bus
untargeted-IsAddressed api now req tab script e = to_top refl (rw e refl) (rw e refl)

send_checked-Sends :
    (api : Api) (now : ℕ) (req : Request) (tab : Tab) (script : String) (o : Option ℕ)
    → req.frame_id ≡ o
    → Sends (IsAddressed api req tab) (send_checked api now req tab script (check_frame api tab o))
unfolding check_frame send_checked
send_checked-Sends api now req tab script none e =
    command _ (untargeted-IsAddressed api now req tab script (rw e refl))
send_checked-Sends api now req tab script (some f) e = elim (Bool-cases (f == 0)) [
  | inl top ↦ rw top (command _ (untargeted-IsAddressed api now req tab script (rw (e, top) refl)))
  | inr nonzero ↦ rw nonzero (send_checked-found api now req tab script f e nonzero _ refl)
]

send_packed-Sends :
    (api : Api) (now : ℕ) (req : Request) (tab : Tab) (p : Packed)
    → Sends (IsAddressed api req tab) (send_packed api now req tab p)
unfolding send_packed
send_packed-Sends api now req tab (stopped v) = no_command v
send_packed-Sends api now req tab broken = no_result
send_packed-Sends api now req tab (go_on script) =
    send_checked-Sends api now req tab script req.frame_id refl

if-Sends :
    (P : Cmd → Type 0) (b : Bool) {d e : Dispatch}
    → Sends P d
    → Sends P e
    → Sends P (if b then d else e)
if-Sends P true s t = s
if-Sends P false s t = t

dispatch_in-Sends :
    (api : Api) (now : ℕ) (req : Request) (tab : Tab)
    → Sends (IsAddressed api req tab) (dispatch_in api now req tab)
unfolding dispatch_in
dispatch_in-Sends api now req tab = if-Sends P (script == "__SP_LIST_FRAMES__") (no_command _) (
    if-Sends P (starts_with dnr.prefix script) (no_command _) (
      if-Sends P (script == "__SP_TAKE_SCREENSHOT__") (no_command _) (
        if-Sends P (starts_with "__SP_FILE_UPLOAD_PROBE_TEST__" script) (upload _ _ _) (
          if-Sends P (starts_with "__SP_FILE_UPLOAD_PROBE__:" script) (upload _ _ _) (
            if-Sends P (starts_with "__SP_FILE_UPLOAD__:" script) (upload _ _ _) (
              if-Sends P (starts_with cookies.prefix script) (no_command _)
                (send_packed-Sends api now req tab (run_pack api tab script))))))))
  where
    script : String
    script = req.script

    P : Cmd → Type 0
    P = IsAddressed api req tab

    upload : (e m : String) (ms : ℕ) → Sends P (upload_bus now req tab e m ms)
    upload = upload_bus-Sends api now req tab

-- A command on the bus comes from a tab that was found.
abbrev IsFound : Api → Request → Option Tab → Cmd → Type 0
IsFound api req o cmd = (tab : Tab) × (o ≡ some tab) × IsAddressed api req tab cmd

Sends-map :
    {P : Cmd → Type 0} (Q : Cmd → Type 0) {d : Dispatch}
    → ((c : Cmd) → P c → Q c)
    → Sends P d
    → Sends Q d
Sends-map Q f (no_command v) = no_command v
Sends-map Q f no_result = no_result
Sends-map Q f (command b p) = command b (f b.cmd p)

dispatch-Sends :
    (api : Api) (now : ℕ) (req : Request) (o : Option Tab)
    → Sends (IsFound api req o) (dispatch api now req o)
unfolding dispatch
dispatch-Sends api now req none =
    if-Sends (IsFound api req none) (req.script == "") (no_command _) (no_command _)
dispatch-Sends api now req (some t) =
    if-Sends (IsFound api req (some t)) (req.script == "") (no_command _)
      (Sends-map (IsFound api req (some t)) (λ c p. (t, refl, p)) (dispatch_in-Sends api now req t))

pub dispatch-found :
    (api : Api) (now : ℕ) (req : Request) (o : Option Tab) (b : Bus)
    → dispatch api now req o ≡ on_bus b
    → (tab : Tab) × (o ≡ some tab) × IsAddressed api req tab b.cmd
dispatch-found api now req o b e =
    Sends-on_bus (subst (Sends (IsFound api req o)) e (dispatch-Sends api now req o))

-- A command that a request of a session puts on the bus is for a tab of the window of the session,
-- if that window is known and the request has a URL: for an open tab of that window, or for one
-- that the cache has there. It names the top frame, or the frame of the request, which the browser
-- has in that tab, with the URL that the browser gives for it. The open tabs have different ids,
-- and so do the entries of the cache.
pub dispatch-in_session :
    (browser : Browser) (live actives : List Tab) (s : Tabs) (api : Api) (now : ℕ) (req : Request)
    (url session : String) (w : ℕ) (b : Bus)
    → IsDistinctTabs live
    → IsDistinct s.cache
    → (url == "") ≡ false
    → get session s.windows ≡ some w
    → dispatch api now req (find_target_tab browser live actives s (some url) (some session))
      ≡ on_bus b
    → (tab : Tab) × ((tab.window_id ≡ some w) ⊎ IsCachedIn w s.cache tab)
      × IsAddressed api req tab b.cmd
dispatch-in_session browser live actives s api now req url session w b d e present known sent =
    let (tab, found, addressed) = dispatch-found api now req _ b sent in
    (
      tab,
      find_target_tab-window browser live actives s url session w tab d e present known found,
      addressed,
    )
