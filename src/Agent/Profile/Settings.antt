-- ===== src/Agent/Profile/Settings.antt =====
-- What `validate` of crates/wsl-agent/src/profile.rs lets through: `wg-quick` runs the file as root.
use wslvpn.Base.{
  ℕ, ◌+◌, ◌≡◌, ◌≢◌, refl, subst, ◌⊎◌, inl, inr, Bool, true, false, some, List, [], ◌∷◌, ◌++◌, arith,
  if◌then◌else◌, Bool-cases, length, is_empty, All, Any,
}
use wslvpn.Base.Text.{Text, has_text, has_text_iff}
use wslvpn.Base.Strings.{lines}
use wslvpn.Agent.Profile.{
  ProfileError, no_public_key, no_allowed_ips, with_peer, first_endpoint, KeyTools, DirectProfile,
  PeerSummary, hook_keys, Section, outside, interface, peer, Checked, ok, err, panic, ◌>>=◌, ◌>>◌,
  normalise, Progress, start, close_peer, enter_section, interface_setting, update_last, set_peer,
  peer_setting, apply_setting, setting_in, Line, blank, heading, setting, unreadable, read_line,
  check_line, check_lines, finish, validate,
}

-- A line that is no setting, or one that wg-quick does not run.
abbrev pub IsHarmless : Line → Type 0
IsHarmless line = (key value : Text) → line ≡ setting key value → ¬ Any (λ k. k ≡ key) hook_keys

ok_first :
    {A B : Type 0} (m : Checked A) (f : A → Checked B) {b : B}
    → m >>= f ≡ ok b
    → (a : A) × (f a ≡ ok b) × (m ≡ ok a)
ok_first panic f h = cc
ok_first (err e) f h = cc
ok_first (ok a) f h = (a, h, refl)

apply_setting-hook_keys :
    (tools : KeyTools) (n : ℕ) (key value : Text) (s : Progress) {next : Progress}
    → apply_setting tools n key value s ≡ ok next
    → ¬ Any (λ k. k ≡ key) hook_keys
unfolding apply_setting
apply_setting-hook_keys tools n key value s h found =
    let hooked : has_text key hook_keys ≡ true = (has_text_iff key hook_keys).1 found in
    ground arith

check_line-IsHarmless :
    (tools : KeyTools) (n : ℕ) (line : Line) (s : Progress) {next : Progress}
    → check_line tools n line s ≡ ok next
    → IsHarmless line
unfolding check_line
check_line-IsHarmless tools n blank s h key value e = cc
check_line-IsHarmless tools n (heading text) s h key value e = cc
check_line-IsHarmless tools n unreadable s h key value e = cc
check_line-IsHarmless tools n (setting k v) s h key value e =
    let same : k ≡ key = cc in
    subst (λ x. ¬ Any (λ y. y ≡ x) hook_keys) same (apply_setting-hook_keys tools n k v s h)

check_lines-IsHarmless :
    (tools : KeyTools) (n : ℕ) (raws : List Text) (s : Progress) {last : Progress}
    → check_lines tools n raws s ≡ ok last
    → All (λ raw. IsHarmless (read_line raw)) raws
unfolding check_lines
check_lines-IsHarmless tools n [] s h = tt
check_lines-IsHarmless tools n (raw ∷ rest) s h =
    let (next, later, now) = ok_first (check_line tools n (read_line raw) s) _ h in
    (
      check_line-IsHarmless tools n (read_line raw) s now,
      check_lines-IsHarmless tools (n + 1) rest next later,
    )

-- A config that is accepted has no line, in any section and spelled in any case, that sets PreUp,
-- PostUp, PreDown or PostDown.
pub validate-IsHarmless :
    (tools : KeyTools) (text name : Text) {profile : DirectProfile}
    → validate tools text name ≡ ok profile
    → All (λ raw. IsHarmless (read_line raw)) (lines (normalise text))
unfolding validate
validate-IsHarmless tools text name h =
    let (s, later, run) =
      ok_first (check_lines tools 1 (lines (normalise text)) (start name)) _ h in
    check_lines-IsHarmless tools 1 (lines (normalise text)) (start name) run

-- Where the loop is inside a [Peer], the profile has a peer.
abbrev IsReady : Progress → Type 0
IsReady s = s.section ≡ peer → s.profile.peers ≢ []

-- An outcome that is not a panic, and goes on ready.
data Proceeds : Checked Progress → Type 0 where
  going : (s : Progress) → IsReady s → Proceeds (ok s)
  stopped : (e : ProfileError) → Proceeds (err e)

if-Proceeds :
    (b : Bool) (x y : Checked Progress) → Proceeds x → Proceeds y → Proceeds (if b then x else y)
if-Proceeds true x y px py = px
if-Proceeds false x y px py = py

append_ne_nil : {A : Type 0} (xs : List A) (x : A) → xs ++ x ∷ [] ≢ []
append_ne_nil [] x h = cc
append_ne_nil (y ∷ xs) x h = cc

update_last_lem :
    (f : PeerSummary → PeerSummary) (peers : List PeerSummary)
    → peers ≢ []
    → (changed : List PeerSummary) × (update_last f peers ≡ some changed) × (changed ≢ [])
update_last_lem f [] h = absurd (h refl)
update_last_lem f (p ∷ []) h = (f p ∷ [], refl, λ e. cc)
update_last_lem f (p ∷ (q ∷ ps)) h =
    let (rest, e, _) = update_last_lem f (q ∷ ps) (λ e. cc) in (p ∷ rest, rw e refl, λ e. cc)

interface-ne-peer : interface ≢ peer
interface-ne-peer h = cc

enter_section-Proceeds : (n : ℕ) (text : Text) (s : Progress) → Proceeds (enter_section n text s)
unfolding enter_section
enter_section-Proceeds n text s =
    search (if-Proceeds, stopped, going, interface-ne-peer, append_ne_nil)

interface_setting-Proceeds :
    (tools : KeyTools) (n : ℕ) (key value : Text) (s : Progress)
    → s.section ≡ interface
    → Proceeds (interface_setting tools n key value s)
unfolding interface_setting
interface_setting-Proceeds tools n key value s e =
    let idle : s.section ≡ peer → s.profile.peers ≢ [] = λ h. cc in
    search (if-Proceeds, going, stopped, idle) depth 12

with_peer-Proceeds :
    (f : PeerSummary → PeerSummary) (change : Progress → Progress) (s : Progress)
    → s.profile.peers ≢ []
    → ((t : Progress) → t.profile.peers ≢ [] → (change t).profile.peers ≢ [])
    → Proceeds (with_peer f change s)
unfolding with_peer
with_peer-Proceeds f change s some_peer keeps =
    let (changed, e, still) = update_last_lem f s.profile.peers some_peer in
    rw (e, with_peer) (going _ (λ h. keeps _ still))

first_endpoint-peers :
    (value : Text) (t : Progress)
    → t.profile.peers ≢ []
    → (first_endpoint value t).profile.peers ≢ []
unfolding first_endpoint
first_endpoint-peers value t h = elim (Bool-cases (is_empty t.profile.endpoint)) [
  | inl e ↦ rw e h
  | inr e ↦ rw e h
]

set_peer-Proceeds :
    (tools : KeyTools) (n : ℕ) (key value : Text) (s : Progress)
    → s.profile.peers ≢ []
    → Proceeds (set_peer tools n key value s)
unfolding set_peer
set_peer-Proceeds tools n key value s ready =
    search (if-Proceeds, stopped, with_peer-Proceeds, first_endpoint-peers) depth 12

is_empty-false : {A : Type 0} (xs : List A) → xs ≢ [] → is_empty xs ≡ false
is_empty-false [] h = absurd (h refl)
is_empty-false (x ∷ xs) h = refl

peer_setting-Proceeds :
    (tools : KeyTools) (n : ℕ) (key value : Text) (s : Progress)
    → s.profile.peers ≢ []
    → Proceeds (peer_setting tools n key value s)
unfolding peer_setting
peer_setting-Proceeds tools n key value s ready =
    rw (is_empty-false s.profile.peers ready)
      (if-Proceeds _ _ _ (stopped _) (set_peer-Proceeds tools n key value s ready))

Section-cases : (x : Section) → (x ≡ outside) ⊎ (x ≡ interface) ⊎ (x ≡ peer)
Section-cases outside = inl refl
Section-cases interface = inr (inl refl)
Section-cases peer = inr (inr refl)

setting_in-Proceeds :
    (section : Section) (tools : KeyTools) (n : ℕ) (key value : Text) (s : Progress)
    → s.section ≡ section
    → IsReady s
    → Proceeds (setting_in section tools n key value s)
unfolding setting_in
setting_in-Proceeds outside tools n key value s e ready = stopped _
setting_in-Proceeds interface tools n key value s e ready =
    interface_setting-Proceeds tools n key value s e
setting_in-Proceeds peer tools n key value s e ready =
    peer_setting-Proceeds tools n key value s (ready e)

apply_setting-Proceeds :
    (tools : KeyTools) (n : ℕ) (key value : Text) (s : Progress)
    → IsReady s
    → Proceeds (apply_setting tools n key value s)
unfolding apply_setting
apply_setting-Proceeds tools n key value s ready =
    search (if-Proceeds, stopped, setting_in-Proceeds s.section tools n key value s refl ready)

close_peer-cases :
    (n : ℕ) (s : Progress)
    → (close_peer n s ≡ ok tt) ⊎ ((e : ProfileError) × (close_peer n s ≡ err e))
unfolding close_peer
close_peer-cases n s = elim (Section-cases s.section) [
  | inl e ↦ inl (rw (e, close_peer) refl)
  | inr (inl e) ↦ inl (rw (e, close_peer) refl)
  | inr (inr e) ↦ elim (Bool-cases s.peer_has_key) [
    | inr k ↦ inr (no_public_key n, rw (e, k, close_peer) refl)
    | inl k ↦ elim (Bool-cases s.peer_has_allowed) [
      | inr a ↦ inr (no_allowed_ips n, rw (e, k, a, close_peer) refl)
      | inl a ↦ inl (rw (e, k, a, close_peer) refl)
    ]
  ]
]

check_line-Proceeds :
    (tools : KeyTools) (n : ℕ) (line : Line) (s : Progress)
    → IsReady s
    → Proceeds (check_line tools n line s)
unfolding check_line
check_line-Proceeds tools n blank s ready = going s ready
check_line-Proceeds tools n (heading text) s ready = elim (close_peer-cases n s) [
  | inl e ↦ rw (e, check_line) (enter_section-Proceeds n text s)
  | inr (x, e) ↦ rw (e, check_line) (stopped x)
]
check_line-Proceeds tools n (setting key value) s ready =
    apply_setting-Proceeds tools n key value s ready
check_line-Proceeds tools n unreadable s ready = stopped _

after_line :
    (tools : KeyTools) (n : ℕ) (rest : List Text) {r : Checked Progress}
    → Proceeds r
    → ((s : Progress) → IsReady s → Proceeds (check_lines tools n rest s))
    → Proceeds (r >>= check_lines tools n rest)
after_line tools n rest (going s ready) go = go s ready
after_line tools n rest (stopped e) go = stopped e

check_lines-Proceeds :
    (tools : KeyTools) (n : ℕ) (raws : List Text) (s : Progress)
    → IsReady s
    → Proceeds (check_lines tools n raws s)
unfolding check_lines
check_lines-Proceeds tools n [] s ready = going s ready
check_lines-Proceeds tools n (raw ∷ rest) s ready =
    after_line tools (n + 1) rest (check_line-Proceeds tools n (read_line raw) s ready)
      (check_lines-Proceeds tools (n + 1) rest)

finish-ne-panic : (s : Progress) → finish s ≢ panic
unfolding finish
finish-ne-panic s = ground arith

closed :
    (n : ℕ) {r : Checked Progress} → Proceeds r → (r >>= λ s. close_peer n s >> finish s) ≢ panic
closed n (going s ready) = elim (close_peer-cases n s) [
  | inl e ↦ rw e (finish-ne-panic s)
  | inr (x, e) ↦ rw e (λ h. cc)
]
closed n (stopped e) = λ h. cc

outside-ne-peer : outside ≢ peer
outside-ne-peer h = cc

-- `validate` never panics: the `expect` on the last peer is only reached inside a [Peer].
pub validate-ne-panic : (tools : KeyTools) (text name : Text) → validate tools text name ≢ panic
unfolding validate start
validate-ne-panic tools text name = closed (length (lines (normalise text)) + 1) (
    check_lines-Proceeds tools 1 (lines (normalise text)) (start name)
      (λ h. absurd (outside-ne-peer h)))
