-- ===== src/Contributors/Roles.antt =====
-- The roles of a contribution: `Contribution.LOCAuthorRoles` of app/db/models/contribution.py.
use mathlib.Core.Option.{none-ne-some}
use svp_harvester.Prelude.{
  refl, String, true, Option, none, some, List, [], ◌∷◌, find?, any, ◌==◌, string_eq, if◌then◌else◌,
  ◌<>◌, ◌≡◌, ◌⊎◌, Option-cases, inl, inr, arith, path→eq,
}
use svp_harvester.Prelude.Action.{Outcome, ok, raised}
use svp_harvester.Harvesting.Model.{Exception}
use svp_harvester.Harvesting.Converter.{other_error}

-- A member of the enumeration: its code, its name and its URL.
abbrev pub Role : Type 0
Role = String × String × String

-- `f"{RELATORS_BASE_URL}…"`
abbrev pub relator : String → String
relator page = "https://id.loc.gov/vocabulary/relators/" <> page

unfoldable pub loc_author_roles : List Role
loc_author_roles =
    ("ACT", "Actor", relator "act.html")
    ∷ ("ADP", "Adapter", relator "adp.html")
    ∷ ("ANM", "Animator", relator "anm.html")
    ∷ ("ANT", "Bibliographic antecedent", relator "ant.html")
    ∷ ("ANN", "Annotator", relator "ann.html")
    ∷ ("ANL", "Analyst", relator "anl.html")
    ∷ ("ARR", "Arranger", relator "arr.html")
    ∷ ("ART", "Artist", relator "art.html")
    ∷ ("ARD", "Artistic Director", relator "ard.html")
    ∷ ("ASG", "Assignee", relator "asg.html")
    ∷ ("ASN", "Associated name", relator "asn.html")
    ∷ ("AUC", "Auctioneer", relator "auc.html")
    ∷ ("AUT", "Author", relator "aut.html")
    ∷ ("AQT", "Author in quotations or text abstracts", relator "aqt.html")
    ∷ ("AFT", "Author of afterword, colophon, etc.", relator "aft.html")
    ∷ ("AUI", "Author of introduction, etc.", relator "aui.html")
    ∷ ("AUS", "Screenwriter", relator "aus.html")
    ∷ ("BND", "Binder", relator "bnd.html")
    ∷ ("BDD", "Binding designer", relator "bdd.html")
    ∷ ("BKD", "Book designer", relator "bkd.html")
    ∷ ("BPD", "Bookplate producer", relator "bpd.html")
    ∷ ("BJD", "Bookjacket designer", relator "bjd.html")
    ∷ ("BSL", "Bookseller", relator "bsl.html")
    ∷ ("CLL", "Calligrapher", relator "cll.html")
    ∷ ("CTG", "Cartographer", relator "ctg.html")
    ∷ ("CNS", "Censor", relator "cns.html")
    ∷ ("CHR", "Choreographer", relator "chr.html")
    ∷ ("CLB", "Collaborator", "discontinued code")
    ∷ ("COL", "Collector", relator "col.html")
    ∷ ("CMM", "Commentator", relator "cmm.html")
    ∷ ("CMT", "Compositor", relator "cmt.html")
    ∷ ("CWT", "Commentator for written text", relator "cwt.html")
    ∷ ("COM", "Compiler", relator "com.html")
    ∷ ("CMP", "Composer", relator "cmp.html")
    ∷ ("CCP", "Conceptor", relator "ccp.html")
    ∷ ("CND", "Conductor", relator "cnd.html")
    ∷ ("CSP", "Consultant to a project", relator "csp.html")
    ∷ ("CTB", "Contributor", relator "ctb.html")
    ∷ ("CPH", "Copyright holder", relator "cph.html")
    ∷ ("CRR", "Corrector", relator "crr.html")
    ∷ ("CUR", "Curator", relator "cur.html")
    ∷ ("DNC", "Dancer", relator "dnc.html")
    ∷ ("DTE", "Dedicatee", relator "dte.html")
    ∷ ("DTO", "Dedicator", relator "dto.html")
    ∷ ("DGC", "Degree committee member", relator "dgc.html")
    ∷ ("DGG", "Degree granting institution", relator "dgg.html")
    ∷ ("DIS", "Dissertant", relator "dis.html")
    ∷ ("DRT", "Director", relator "drt.html")
    ∷ ("DST", "Distributor", relator "dst.html")
    ∷ ("DNR", "Donor", relator "dnr.html")
    ∷ ("DUB", "Dubious author", relator "dub.html")
    ∷ ("EDC", "Editor of compilation", relator "edc.html")
    ∷ ("EDT", "Editor", relator "edt.html")
    ∷ ("EGR", "Engraver", relator "egr.html")
    ∷ ("ETR", "Etcher", relator "etr.html")
    ∷ ("EXP", "Expert", relator "exp.html")
    ∷ ("FMD", "Film director", relator "fmd.html")
    ∷ ("FLM", "Film editor", relator "flm.html")
    ∷ ("FRG", "Forger", relator "frg.html")
    ∷ ("FMO", "Former owner", relator "fmo.html")
    ∷ ("GRT", "Graphic technician", "Discontinued code")
    ∷ ("HNR", "Honoree", relator "hnr.html")
    ∷ ("ILU", "Illuminator", relator "ilu.html")
    ∷ ("ILL", "Illustrator", relator "ill.html")
    ∷ ("INS", "Inscriber", relator "ins.html")
    ∷ ("IVE", "Interviewee", relator "ive.html")
    ∷ ("IVR", "Interviewer", relator "ivr.html")
    ∷ ("INV", "Inventor", relator "inv.html")
    ∷ ("ISB", "Issuing body", relator "isb.html")
    ∷ ("LBT", "Librettist", relator "lbt.html")
    ∷ ("LSE", "Licensee", relator "lse.html")
    ∷ ("LSO", "Licensor", relator "lso.html")
    ∷ ("LTG", "Lithographer", relator "ltg.html")
    ∷ ("LYR", "Lyricist", relator "lyr.html")
    ∷ ("MTE", "Metal-engraver", relator "mte.html")
    ∷ ("MON", "Monitor", relator "mon.html")
    ∷ ("MUS", "Musician", relator "mus.html")
    ∷ ("NRT", "Narrator", relator "nrt.html")
    ∷ ("OSP", "Onscreen presenter", relator "osp.html")
    ∷ ("OPN", "Opponent", relator "opn.html")
    ∷ ("ORM", "Organizer", relator "orm.html")
    ∷ ("ORG", "Originator", relator "org.html")
    ∷ ("OTH", "Other", relator "oth.html")
    ∷ ("PPM", "Papermaker", relator "ppm.html")
    ∷ ("POP", "Printer of plate", relator "pop.html")
    ∷ ("PTH", "Patent holder", relator "pth.html")
    ∷ ("PRF", "Performer", relator "prf.html")
    ∷ ("PHT", "Photographer", relator "pht.html")
    ∷ ("PRA", "Praeses", relator "pra.html")
    ∷ ("PRT", "Printer", relator "prt.html")
    ∷ ("PRO", "Producer", relator "pro.html")
    ∷ ("PRD", "Production personnel", relator "prd.html")
    ∷ ("PRG", "Programmer", relator "prg.html")
    ∷ ("PDR", "Project director", relator "pdr.html")
    ∷ ("PFR", "Proofreader", relator "pfr.html")
    ∷ ("PBL", "Publisher", relator "pbl.html")
    ∷ ("PBD", "Publisher director", relator "pbd.html")
    ∷ ("PPT", "Puppeteer", relator "ppt.html")
    ∷ ("RAP", "Rapporteur", relator "rap.html")
    ∷ ("RCP", "Addressee", relator "rcp.html")
    ∷ ("RCE", "Recording engineer", relator "rce.html")
    ∷ ("RTH", "Research team head", relator "rth.html")
    ∷ ("RTM", "Research team member", relator "rtm.html")
    ∷ ("RES", "Researcher", relator "res.html")
    ∷ ("REV", "Reviewer", relator "rev.html")
    ∷ ("RBR", "Rubricator", relator "rbr.html")
    ∷ ("RSP", "Respondent", relator "rsp.html")
    ∷ ("SCE", "Scenarist", relator "sce.html")
    ∷ ("SAD", "Scientific advisor", relator "sad.html")
    ∷ ("SCR", "Scribe", relator "scr.html")
    ∷ ("SCL", "Sculptor", relator "scl.html")
    ∷ ("SDS", "Sound designer", relator "sds.html")
    ∷ ("SEC", "Secretary", relator "sec.html")
    ∷ ("SLL", "Seller", relator "sll.html")
    ∷ ("SGN", "Signer", relator "sgn.html")
    ∷ ("SNG", "Singer", relator "sng.html")
    ∷ ("SPN", "Sponsor", relator "spn.html")
    ∷ ("SPK", "Speaker", relator "spk.html")
    ∷ ("STM", "Stage manager", relator "stm.html")
    ∷ ("SWD", "Software developer", relator "swd.html")
    ∷ ("THS", "Thesis advisor", relator "ths.html")
    ∷ ("TRL", "Translator", relator "trl.html")
    ∷ ("TYD", "Type designer", relator "tyd.html")
    ∷ ("TYG", "Typographer", relator "tyg.html")
    ∷ ("VOC", "Vocalist", "Discontinued code")
    ∷ ("WDE", "Wood-engraver", relator "wde.html")
    ∷ ("WAM", "Writer of accompanying material", relator "wam.html")
    ∷ ("WIT", "Witness", relator "wit.html")
    ∷ ("UNKNOWN", "Unknown", "Unknown")
    ∷ []

abbrev pub role_named : String → Option Role
role_named role_code = find? (λ role. role.0 == role_code) loc_author_roles

-- `Contribution.get_name`
unfoldable pub get_name : String → String
get_name role_code = elim (role_named role_code) [ none ↦ "Unknown" | some role ↦ role.1 ]

-- `Contribution.get_url`
unfoldable pub get_url : String → String
get_url role_code = elim (role_named role_code) [ none ↦ "" | some role ↦ role.2 ]

-- `Contribution.validate_role`
unfoldable pub validate_role : String → Outcome Exception String
validate_role role_uri =
    if any (λ role. role_uri == role.2) loc_author_roles
    then ok role_uri
    else raised (other_error "Unknown role")

-- The role that a look-up finds is one of the roles.
url_found :
    (code url : String) (roles : List Role) (role : Role)
    → find? (λ r. r.0 == code) roles ≡ some role
    → any (λ r. role.2 == r.2) roles ≡ true
url_found code url [] role e = absurd (none-ne-some role e)
url_found code url (r ∷ roles) role e =
    ground (arith, e, url_found code url roles role, path→eq role.2 role.2 refl)

-- For every role code: if the code is known, its URL passes the validation of a contribution, and
-- if it is not, the URL is empty.
pub get_url-validate_role :
    (role_code : String)
    → ((get_url role_code ≡ "") × (role_named role_code ≡ none))
      ⊎ (validate_role (get_url role_code) ≡ ok (get_url role_code))
unfolding get_url validate_role
get_url-validate_role role_code = elim (Option-cases (role_named role_code)) [
  | inl missing ↦ inl (rw (get_url, missing) refl, missing)
  | inr (role, found) ↦ inr (
      rw (get_url, validate_role, found, url_found role_code role.2 loc_author_roles role found)
        refl)
]
