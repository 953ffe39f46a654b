-- ===== src/Router/Help.antt =====
-- `HelpText` of src/manager/router.cpp, in UTF-8.
use nexus_db.Prelude.{◌∷◌, ◌++◌, Str, codes}

unfoldable pub help_text : Str
help_text =
    codes "NexusDB "
    ++ (226
        ∷ 128
        ∷ 148
        ∷ (codes " minimal end-to-end database CLI\n"
            ++ codes "\n"
            ++ codes "Usage:\n"
            ++ codes "  nexusdb help\n"
            ++ codes "  nexusdb container create <name> [--memory <bytes>] [--cpu <percent>]"
            ++ codes " [--engine <path>]\n"
            ++ codes "  nexusdb container start <name>\n"
            ++ codes "  nexusdb container stop <name>\n"
            ++ codes "  nexusdb container status <name>\n"
            ++ codes "  nexusdb container delete <name>\n"
            ++ codes "  nexusdb db init <name>\n"
            ++ codes "  nexusdb table create <name> <table>\n"
            ++ codes "  nexusdb table list <name>\n"
            ++ codes "  nexusdb insert <name> <table> <hex-data>\n"
            ++ codes "  nexusdb get <name> <table> <page-id> <slot-id>\n"
            ++ codes "  nexusdb update <name> <table> <page-id> <slot-id> <hex-data>\n"
            ++ codes "  nexusdb delete <name> <table> <page-id> <slot-id>\n"
            ++ codes "  nexusdb scan <name> <table>\n"
            ++ codes "\n"
            ++ codes "Records are supplied/returned as hexadecimal (even length). The database\n"
            ++ codes "for <name> lives in $NEXUSDB_DATA_ROOT/<name> (default ./nexusdb_data).\n"
            ++ codes "A running container holds the database open; stop it before database\n"
            ++ codes "commands (there is no client/server protocol).\n"
            ++ codes "\n"
            ++ codes "Exit codes: 0 ok, 1 operational error, 2 usage, 3 invalid argument,"
            ++ codes " 4 not found.\n"))
