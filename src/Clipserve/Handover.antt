-- ===== src/Clipserve/Handover.antt =====
-- The way of a clip from src/clipmenud.c to src/clipserve.c: the daemon stores the text, run_clipserve
-- of src/util.c passes its hash on, and clipserve answers with the text; its window, which it names
-- with XStoreName(), is one whose selections the daemon passes over.
use clipmenu.Prelude.{
  ℕ, zero, suc, ◌+◌, ◌-◌, ◌^◌, ◌≤◌, ◌<◌, ◌≡◌, refl, ap, ◌∙◌, subst, ◌≢◌, inl, inr, Bool, true,
  false, ◌&&◌, Option, none, some, List, [], ◌∷◌, ◌++◌, arith, ltb, ◌==◌, ==_iff, Bool-cases,
  length, drop, length-append,
}
use mathlib.Core.List.{cons-ne-nil}
use clipmenu.Text.{Bytes, codes, streq, djb64_hash, is_salient_text}
use clipmenu.Machine.{SnipFile, ClipStore, Sys, ok, err}
use clipmenu.X.{xa_wm_name, any_property_type, get_window_title}
use clipmenu.Store.State.{Dir, sys, IsIdle}
use clipmenu.Store.Clips.{Represents, NoCollision, max_clips}
use clipmenu.Daemon.Selections.{Selection, Atoms, all_selections, find_atom}
use clipmenu.Daemon.{Config, Daemon, xfixes_selection_notify}
use clipmenu.Daemon.Handlers.{
  is_clipserve, is_partial_of_last, handle_property_notify, handle_xfixes_selection_notify,
  handle_x11_event, einprogress, handle_one,
}
use clipmenu.Daemon.Storing.{but_last, stored, limited, handle_property_notify_stores}
use clipmenu.Util.Descriptors.{run_clipserve}
use clipmenu.Util.{uint64_to_str}
use clipmenu.Clipserve.{Targets, ServeEvent, selection_clear, Answer, main}
use clipmenu.Clipserve.Serving.{clears, Replies, main_serves}

drop_before_last :
    (k : ℕ) (xs : List Bytes) (t : Bytes)
    → k ≤ length xs
    → drop k (xs ++ (t ∷ [])) ≡ drop k xs ++ (t ∷ [])
drop_before_last zero xs t h = refl
drop_before_last (suc k) [] t h = absurd (omega arith)
drop_before_last (suc k) (x ∷ xs) t h = drop_before_last k xs t (omega (arith, h))

-- The text that was stored last stays, unless no text is to be kept.
limited_last :
    (cfg : Config) (xs : List Bytes) (t : Bytes)
    → 0 < cfg.max_clips
    → (ys : List Bytes) × (limited cfg (xs ++ (t ∷ [])) ≡ ys ++ (t ∷ []))
limited_last cfg xs t some_kept =
    elim (Bool-cases (ltb cfg.max_clips_batch (length (xs ++ (t ∷ []))))) [
      | inl e ↦ (
        drop (length (xs ++ (t ∷ [])) - cfg.max_clips) xs,
        rw e (drop_before_last _ xs t (omega (arith, some_kept, length-append xs (t ∷ [])))),
      )
      | inr e ↦ (xs, rw e refl)
    ]

stored_last :
    (partial : Bool) (text : Bytes) (ts : List Bytes)
    → (xs : List Bytes) × (stored partial text ts ≡ xs ++ (text ∷ []))
stored_last true text ts = (but_last ts, refl)
stored_last false text ts = (ts, refl)

salient_some : (text : Bytes) → is_salient_text text ≡ true → text ≢ []
unfolding is_salient_text
salient_some [] salient e = ground arith
salient_some (c ∷ text) salient e = cons-ne-nil c text e

module _ (intern_atom : Bytes → ℕ) (get_property : ℕ → ℕ → Option Bytes) where
  title_of_clipserve :
      get_property (intern_atom (codes "_NET_WM_NAME")) (intern_atom (codes "UTF8_STRING")) ≡ none
      → get_property xa_wm_name any_property_type ≡ some (codes "clipserve")
      → get_window_title intern_atom get_property ≡ some (codes "clipserve")
  unfolding get_window_title
  title_of_clipserve no_net_name name =
      elim (Bool-cases (intern_atom (codes "_NET_WM_NAME") == xa_wm_name)) [
        | inl e ↦ rw ((==_iff _ _).0 e, name) refl
        | inr e ↦ rw (e, no_net_name, name) refl
      ]

passed_over :
    (cfg : Config) (sels : Atoms) (win_title : Option Bytes) (selection : ℕ) (s : Daemon)
    → win_title ≡ some (codes "clipserve")
    → handle_x11_event cfg sels (xfixes_selection_notify win_title selection ∷ []) s
      ≡ (err einprogress, [], s)
unfolding handle_x11_event handle_one handle_xfixes_selection_notify is_clipserve streq
passed_over cfg sels win_title selection s e = elim (Bool-cases s.enabled) [
  | inl on ↦ rw (e, on) refl
  | inr off ↦ rw off refl
]

module _ (intern_atom : Bytes → ℕ) (get_property : ℕ → ℕ → Option Bytes)
    (snip_fd content_dir_fd : ℕ) (targets : Targets) (evts later : List ServeEvent) where
  -- The daemon after it.
  abbrev served_state : Bytes → ℕ → ℕ → Sys → Daemon → Daemon
  served_state text now hash store s = record s {
    store = store;
    last_text = some text;
    last_text_time = now;
    serving = hash ∷ s.serving;
  }

  -- Where the daemon stores a salient text of a selection that is to be owned, run_clipserve gets a hash
  -- whose argument makes clipserve answer from the files as the daemon left them, until its second
  -- selection is taken over: a request for UTF8_STRING or STRING with the whole text, one for TARGETS
  -- with these two, and any other with None. The daemon passes over a selection that the window of
  -- clipserve takes. The files hold ts, the text is shorter than 2 ^ 31 and finds room, no other text
  -- with its hash is stored, something is stored if the text is a partial of the last, and at least one
  -- clip is kept; the window has the WM_NAME of clipserve and no _NET_WM_NAME.
  pub handed_over :
      (text : Bytes) (now : ℕ) (ts : List Bytes) (f : SnipFile) (d : Dir) (c c₀ : ClipStore)
      (r : Represents ts f d) (i : IsIdle c) (cfg : Config) (sels : Atoms) (atom selection : ℕ)
      (sel : Selection) (s : Daemon)
      → find_atom sels.storage atom all_selections ≡ some sel
      → is_salient_text text ≡ true
      → length ts + 1 < max_clips
      → NoCollision text ts
      → (is_partial_of_last s.last_text s.last_text_time now text ≡ true → ts ≢ [])
      → cfg.owned sel && cfg.own_clipboard ≡ true
      → 0 < cfg.max_clips
      → length text < 2 ^ 31
      → clears evts ≡ 1
      → get_property (intern_atom (codes "_NET_WM_NAME")) (intern_atom (codes "UTF8_STRING")) ≡ none
      → get_property xa_wm_name any_property_type ≡ some (codes "clipserve")
      → (hash : ℕ) × (argument : Bytes) × (out : List Answer) × (f' : SnipFile) × (d' : Dir) × (c'
          c'' : ClipStore)
        × (handle_property_notify cfg sels atom true
              (some text)
              now
              (record s { store = sys f d false c })
            ≡ (ok tt, served_state text now hash (sys f' d' false c') s))
        × (run_clipserve (some true) hash ≡ ok (some (codes "clipserve" ∷ argument ∷ [])))
        × (main snip_fd content_dir_fd targets argument
              (evts ++ (selection_clear ∷ later))
              (sys f' d' false c₀)
            ≡ (ok (some (out, later)), sys f' d' false c''))
        × Replies targets text evts out
        × (handle_x11_event cfg sels
              (xfixes_selection_notify (get_window_title intern_atom get_property) selection ∷ [])
              (served_state text now hash (sys f' d' false c') s)
            ≡ (err einprogress, [], served_state text now hash (sys f' d' false c') s))
  unfolding run_clipserve
  handed_over text now ts f d c c₀ r i cfg sels atom selection sel s found salient few free
        some_text owned kept short once no_net_name name =
      let (f', d', c', ran, idle, r') =
        handle_property_notify_stores text now ts f d c r i cfg sels atom sel s found salient few
          free some_text in
      let (xs, last) =
        stored_last (is_partial_of_last s.last_text s.last_text_time now text) text ts in
      let (pre, left) = limited_last cfg xs text kept in
      let (out, c'', serves, replies) =
        main_serves snip_fd content_dir_fd targets pre [] text evts later f' d' c₀
          (subst (λ l. Represents l f' d') (ap (limited cfg) last ∙ left) r')
          (salient_some text salient) short once in
      (
        djb64_hash text,
        uint64_to_str (djb64_hash text),
        out,
        f',
        d',
        c',
        c'',
        ran ∙ rw owned refl,
        refl,
        serves,
        replies,
        passed_over cfg sels (get_window_title intern_atom get_property) selection _
            (title_of_clipserve intern_atom get_property no_net_name name),
      )
