-- ===== src/Scanner/History/Request.antt =====
-- The request of the scan history, as its filters make it.
use vps_monitor.Common.{
  ℕ, Text, codes, text_eq, text_eq_refl, Option, none, some, List, [], ◌∷◌, false, ◌||◌,
  if◌then◌else◌, ◌==◌, ◌≡◌, refl, arith, ◌∙◌,
}
use vps_monitor.Common.Dict.{get, set, get-set}
use vps_monitor.Scanner.History.{
  Params, History, severity_picked, handle, query, search_params, or_undefined, set_text,
  set_number, unless_all, on_page, sort_text, dir_text, Query,
}

get-set_text :
    (key j : Text) (v : Option Text) (m : List (Text × Text))
    → text_eq key j ≡ false
    → get j (set_text key v m) ≡ get j m
get-set_text key j none m h = refl
get-set_text key j (some []) m h = refl
get-set_text key j (some (c ∷ v)) m h = ground (arith, get-set key j (c ∷ v) m, h)

get-set_text_same :
    (key : Text) (v : Text) (m : List (Text × Text))
    → get key m ≡ none
    → get key (set_text key (or_undefined v) m) ≡ or_undefined v
get-set_text_same key [] m h = h
get-set_text_same key (c ∷ v) m h = ground (arith, get-set key key (c ∷ v) m, text_eq_refl key)

get-set_number :
    (print : ℕ → Text) (key j : Text) (n : ℕ) (m : List (Text × Text))
    → text_eq key j ≡ false
    → get j (set_number print key n m) ≡ get j m
get-set_number print key j n m h = ground (arith, get-set key j (print n) m, h)

module _ (print : ℕ → Text) (p : Params) (image host severity : Text) where
  abbrev asked_for : Query
  asked_for = record {
    params = p;
    image = or_undefined image;
    host = or_undefined host;
    min_severity = or_undefined severity;
  }

  abbrev images : List (Text × Text)
  images = set_text (codes "image") (or_undefined image) []

  abbrev hosts : List (Text × Text)
  hosts = set_text (codes "host") (or_undefined host) images

  abbrev texts : List (Text × Text)
  texts = set_text (codes "min_severity") (or_undefined severity) hosts

  abbrev paged : List (Text × Text)
  paged = set_number print (codes "page") p.page texts

  -- A key that the later parameters do not have is read below them.
  get-paged :
      (j : Text)
      → text_eq (codes "sort_dir") j ≡ false
      → text_eq (codes "sort_by") j ≡ false
      → text_eq (codes "page_size") j ≡ false
      → get j (search_params print asked_for) ≡ get j paged
  unfolding search_params
  get-paged j d b n =
      let sized = set_number print (codes "page_size") p.page_size paged in
      let by = set (codes "sort_by") (sort_text p.sort_by) sized in
      get-set (codes "sort_dir") j (dir_text p.sort_dir) by
      ∙ rw d refl
      ∙ get-set (codes "sort_by") j (sort_text p.sort_by) sized
      ∙ rw b refl
      ∙ get-set_number print (codes "page_size") j p.page_size paged n

  get-page :
      (p.page == 0) ≡ false
      → get (codes "page") (search_params print asked_for) ≡ some (print p.page)
  unfolding text_eq
  get-page h =
      get-paged (codes "page") refl refl refl
      ∙ ground (arith, h, get-set (codes "page") (codes "page") (print p.page) texts)

  get-filters :
      (get (codes "min_severity") (search_params print asked_for) ≡ or_undefined severity)
      × ((get (codes "image") (search_params print asked_for) ≡ or_undefined image)
          × (get (codes "host") (search_params print asked_for) ≡ or_undefined host))
  unfolding text_eq get
  get-filters =
      let e = codes "min_severity" in
      let i = codes "image" in
      let h = codes "host" in
      let none_yet : get h images ≡ none = get-set_text i h (or_undefined image) [] refl in
      let no_severity : get e hosts ≡ none =
        get-set_text h e (or_undefined host) images refl
        ∙ get-set_text i e (or_undefined image) [] refl in
      (
        get-paged e refl refl refl
            ∙ get-set_number print (codes "page") e p.page texts refl
            ∙ get-set_text_same e severity hosts no_severity,
        (
          get-paged i refl refl refl
              ∙ get-set_number print (codes "page") i p.page texts refl
              ∙ get-set_text e i (or_undefined severity) hosts refl
              ∙ get-set_text h i (or_undefined host) images refl
              ∙ get-set_text_same i image [] refl,
          get-paged h refl refl refl
              ∙ get-set_number print (codes "page") h p.page texts refl
              ∙ get-set_text e h (or_undefined severity) hosts refl
              ∙ get-set_text_same h host images none_yet,
        ),
      )

severity_lem :
    (v : Text)
    → (if text_eq (unless_all v) (codes "all") || text_eq (unless_all v) []
        then none
        else some (unless_all v))
      ≡ or_undefined (unless_all v)
unfolding text_eq
severity_lem [] = refl
severity_lem (c ∷ v) = ground arith

unless_all_lem :
    (v : Text)
    → or_undefined (unless_all v) ≡ (if text_eq v (codes "all") then none else or_undefined v)
unless_all_lem v = ground arith

-- Choosing a severity asks for the first page with that severity, or with none for "all", and for the image
-- and the host of the other filters as they are: the request has each of these parameters exactly if its filter is not empty.
pub severity_request :
    (print : ℕ → Text) (v : Text) (s : History)
    → (get (codes "page") (search_params print (query (handle (severity_picked v) s)))
        ≡ some (print 1))
      × ((get (codes "min_severity") (search_params print (query (handle (severity_picked v) s)))
            ≡ (if text_eq v (codes "all") then none else or_undefined v))
          × ((get (codes "image") (search_params print (query (handle (severity_picked v) s)))
                ≡ or_undefined s.image_filter)
              × (get (codes "host") (search_params print (query (handle (severity_picked v) s)))
                  ≡ or_undefined s.host_filter)))
unfolding handle query
severity_request print v s =
    let first = on_page 1 s.params in
    rw (severity_lem v, ← unless_all_lem v)
      (
        get-page print first s.image_filter s.host_filter (unless_all v) refl,
        get-filters print first s.image_filter s.host_filter (unless_all v),
      )
