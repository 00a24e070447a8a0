-- ===== src/Extension/Command/Identified.antt =====
-- Which frame takes a command of `executeCommand` (extension/background.js), and what the result
-- says of the tab.
use safari_pilot.Prelude.{none, refl}
use safari_pilot.Extension.Command.{Api, Request, PageFrame, gave, Bus, on_bus}
use safari_pilot.Extension.Frame.{should_process, Cmd, moved}
use safari_pilot.Extension.Session.{Tab}
use safari_pilot.Prelude.{
  ℕ, String, ◌≡◌, some, true, List, or_default, false, Option, arith, sym, ◌∙◌, ◌==◌, ap, eq_iff,
  ==_refl, string_eq, subst,
}
use safari_pilot.Extension.Command.Dispatched.{
  find_frame, bus_result, enrich, dispatch, regular_bus, identity_of,
}
use safari_pilot.Extension.Command.Addressed.{IsAddressed, to_top, dispatch-found, to_frame}
use safari_pilot.Params.{end, field, obj, Value, Fields, member, set_field}

-- The frame that takes it: of the tab, and the top frame, or the frame that the request names, on
-- the page that it had when the command was sent.
pub data IsTaker (api : Api) (req : Request) (tab : Tab) (f : ℕ) (href : String) : Type 0 where
  top_frame : f ≡ 0 → IsTaker api req tab f href
  named_frame :
      (frames : List PageFrame) (p : PageFrame)
      → req.frame_id ≡ some f
      → api.get_all_frames tab.id ≡ gave frames
      → find_frame f frames ≡ some p
      → p.url ≡ href
      → IsTaker api req tab f href

same_target : (o : Option ℕ) (f : ℕ) → (elim o [ none ↦ 0 | some id ↦ id ]) ≡ or_default o 0
same_target none f = refl
same_target (some id) f = refl

should_process-facts :
    (cmd : Cmd) (t f : ℕ) (href : String)
    → should_process cmd (some t) (some f) href ≡ some true
    → (cmd.tab_id ≡ t) × (or_default cmd.frame_id 0 ≡ f) × (moved cmd.frame_url href ≡ false)
unfolding should_process
should_process-facts cmd t f href e =
    (ground (arith, e), sym (same_target cmd.frame_id f) ∙ ground (arith, e), ground (arith, e))

taker :
    (api : Api) (req : Request) (tab : Tab) (cmd : Cmd) (t f : ℕ) (href : String)
    → IsAddressed api req tab cmd
    → (cmd.tab_id ≡ t) × (or_default cmd.frame_id 0 ≡ f) × (moved cmd.frame_url href ≡ false)
    → (t ≡ tab.id) × IsTaker api req tab f href
taker api req tab cmd t f href (to_top in_tab no_frame no_url) (same, frame, stayed) =
    (omega (arith, in_tab, same), top_frame (sym frame ∙ ap (λ o. or_default o 0) no_frame))
taker api req tab cmd t f href (to_frame g frames p in_tab named listed there frame_id frame_url)
      (same, frame, stayed) =
    (
      omega (arith, in_tab, same),
      named_frame frames p (subst (λ n. req.frame_id ≡ some n) g_is_f named) listed
          (subst (λ n. find_frame n frames ≡ some p) g_is_f there)
          (same_url (subst (λ o. moved o href ≡ false) frame_url stayed)),
    )
  where
    g_is_f : g ≡ f
    g_is_f = sym (ap (λ o. or_default o 0) frame_id) ∙ frame

    same_url : moved (some p.url) href ≡ false → p.url ≡ href
    same_url h = ground (arith, h, eq_iff p.url href)

-- A frame that takes a command from the bus is of the tab that was found for the request, and it is
-- the top frame, or the frame that the request names, which the browser has in that tab, and it
-- still shows the URL that the browser gave for it at the dispatch.
pub dispatch-IsTaker :
    (api : Api) (now : ℕ) (req : Request) (o : Option Tab) (b : Bus) (t f : ℕ) (href : String)
    → dispatch api now req o ≡ on_bus b
    → should_process b.cmd (some t) (some f) href ≡ some true
    → (tab : Tab) × (o ≡ some tab) × (t ≡ tab.id) × IsTaker api req tab f href
dispatch-IsTaker api now req o b t f href sent taken =
    let (tab, found, addressed) = dispatch-found api now req o b sent in
    let (same, who) =
      taker api req tab b.cmd t f href addressed (should_process-facts b.cmd t f href taken) in
    (tab, found, same, who)

field_of-set_same :
    (k : String) (v : Value) (fs : Fields) → member (some (obj (set_field k v fs))) k ≡ some v
field_of-set_same k v end = ground (arith, ==_refl k)
field_of-set_same k v (field j w fs) = ground (arith, field_of-set_same k v fs)

field_of-set_other :
    (k l : String) (v : Value) (fs : Fields)
    → (k == l) ≡ false
    → member (some (obj (set_field k v fs))) l ≡ member (some (obj fs)) l
field_of-set_other k l v end e = ground (arith, e)
field_of-set_other k l v (field j w fs) e =
    ground (arith, e, field_of-set_other k l v fs e, eq_iff j k, eq_iff j l, eq_iff k l)

-- The result of a command of the regular path is the reply of the page, or the error of the timeout
-- where there is none, with the identity of the tab under `_meta`, whatever the reply has there,
-- and every other key as it was.
pub bus_result-identified :
    (api : Api) (now : ℕ) (req : Request) (tab : Tab) (script : String) (frame_url : Option String)
    (reply : Option Value) (fs : Fields)
    → or_default reply (regular_bus api now req tab script frame_url).timeout_error ≡ obj fs
    → (member (some (bus_result tab (regular_bus api now req tab script frame_url) reply)) "_meta"
        ≡ some (identity_of tab))
      × ((k : String)
          → ("_meta" == k) ≡ false
          → member (some (bus_result tab (regular_bus api now req tab script frame_url) reply)) k
            ≡ member (some (obj fs)) k)
unfolding bus_result enrich regular_bus
bus_result-identified api now req tab script frame_url reply fs e = rw e (
  field_of-set_same "_meta" (identity_of tab) fs,
  λ k other. field_of-set_other "_meta" k (identity_of tab) fs other,
)
