-- ===== src/Scanner/History/Tests.antt =====
-- Sessions with the scan history.
use vps_monitor.Common.{ℕ, Text, codes, text_eq, none, some, [], ◌∷◌, ◌≡◌, refl, if◌then◌else◌}
use vps_monitor.Common.Dict.{get}
use vps_monitor.Scanner.History.{
  History, opened, previous, next, replied, handle, severity_picked, summary_critical, toggle_sort,
  get_aria_sort, ascending, query, search_params, or_undefined,
}
use vps_monitor.Scanner.History.Pages.{Session, begun, acted, answered}
use vps_monitor.Scanner.History.Request.{severity_request}

-- The second of two pages.
abbrev second_page : History
second_page =
    handle (replied (record { page = 2; total_pages = 2 }))
      (handle next (handle (replied (record { page = 1; total_pages = 2 })) opened))

second_page-Session : Session second_page
unfolding handle
second_page-Session = answered 2 (acted next tt (answered 2 begun))

abbrev print : ℕ → Text
print n = n ∷ []

severity_request_example :
    (get
        (codes "page")
        (search_params print (query (handle (severity_picked (codes "High")) second_page)))
      ≡ some (print 1))
    × ((get
            (codes "min_severity")
            (search_params print (query (handle (severity_picked (codes "High")) second_page)))
          ≡ (if text_eq (codes "High") (codes "all") then none else or_undefined (codes "High")))
        × ((get
                (codes "image")
                (search_params print (query (handle (severity_picked (codes "High")) second_page)))
              ≡ or_undefined second_page.image_filter)
            × (get (codes "host") (
                  search_params print (query (handle (severity_picked (codes "High")) second_page)))
                ≡ or_undefined second_page.host_filter)))
severity_request_example = severity_request print (codes "High") second_page

-- Choosing another column turns the direction of the column before it.
other_column :
    get_aria_sort (toggle_sort summary_critical opened.params) summary_critical ≡ ascending
unfolding get_aria_sort toggle_sort text_eq
other_column = refl

-- When the last page has gone, both buttons are off, and the page stays past the end.
abbrev past_the_end : History
past_the_end = handle (replied (record { page = 2; total_pages = 1 })) second_page

past_the_end_stays :
    (handle previous past_the_end ≡ past_the_end) × (handle next past_the_end ≡ past_the_end)
unfolding handle
past_the_end_stays = (refl, refl)
